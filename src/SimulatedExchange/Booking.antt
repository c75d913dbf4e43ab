-- ===== src/SimulatedExchange/Booking.antt =====
-- The exchange's own book of its fills (sim/SimulatedExchange.cpp): a trade counts once.
use delta_assignment.Common.{
  ℕ, true, false, List, [], ◌∷◌, Option, none, some, ◌≡◌, refl, sym, ap, subst, ◌∙◌, if-both,
  contains, contains-add, add, contains-add_self, ==_iff, ◌==◌, if◌then◌else◌,
}
use delta_assignment.Common.Int.{pos, ◌+ℤ◌}
use delta_assignment.Common.Dict.{Dict, lookup, lookup-insert, lookup-insert_self, find_or, insert}
use delta_assignment.Order.{signed_qty}
use delta_assignment.SimulatedExchange.{
  SimEvent, EvType, Working, SimulatedExchange, SinkCall, counts, take_fill, book_trade, end_found,
  deliver_as, deliver,
}
use delta_assignment.SimulatedExchange.Delivery.{deliver_list}

-- The order under an id has seen a trade, or there is none.
abbrev HasSeen : ℕ → Option Working → Type 0
HasSeen trade none = Unit {0}
HasSeen trade (some w) = contains trade w.seen_trades ≡ true

-- A working order is replaced by one that has seen no fewer trades.
update-HasSeen :
    (id trade k : ℕ) (w w' : Working) (m : Dict Working)
    → lookup k m ≡ some w
    → (contains trade w.seen_trades ≡ true → contains trade w'.seen_trades ≡ true)
    → HasSeen trade (lookup id m)
    → HasSeen trade (lookup id (insert k w' m))
update-HasSeen id trade k w w' m found grow h =
    subst (HasSeen trade) (sym (lookup-insert k id w' m)) (
      if-both (HasSeen trade) (id == k) (some w') (lookup id m)
        (λ e.
          let same = ap (λ (i : ℕ). lookup i m) ((==_iff id k).0 e) ∙ found in
          grow (subst (HasSeen trade) same h))
        (λ e. h))

abbrev fill_call : SimEvent → SinkCall
fill_call ev = SinkCall.on_fill ev.id ev.qty ev.price ev.trade ev.at_ns

module _ {W R : Type 0} where
  book_trade-HasSeen :
      (ev : SimEvent) (found : Option Working) (x : SimulatedExchange W R)
      → lookup ev.id x.working ≡ found
      → HasSeen ev.trade (lookup ev.id (book_trade ev found x).working)
  book_trade-HasSeen ev none x e = subst (HasSeen ev.trade) (sym e) tt
  book_trade-HasSeen ev (some w) x e =
      if-both (λ (y : SimulatedExchange W R). HasSeen ev.trade (lookup ev.id y.working))
        (counts ev w) _ _
        (λ c.
          subst (HasSeen ev.trade) (sym (lookup-insert_self ev.id (take_fill ev w) x.working))
            (contains-add_self ev.trade w.seen_trades))
        (λ c.
          subst (HasSeen ev.trade)
            (sym (
              lookup-insert_self ev.id (record w { seen_trades = add ev.trade w.seen_trades })
                x.working))
            (contains-add_self ev.trade w.seen_trades))

  book_trade-seen :
      (ev : SimEvent) (found : Option Working) (x : SimulatedExchange W R)
      → HasSeen ev.trade found
      → (book_trade ev found x).positions ≡ x.positions
  book_trade-seen ev none x h = refl
  book_trade-seen ev (some w) x h =
      if-both (λ (y : SimulatedExchange W R). y.positions ≡ x.positions) (counts ev w) _ _
        (λ e. absurd (let k = rw h at e in cc)) (λ e. refl)

  deliver-fill :
      (ev : SimEvent) (x : SimulatedExchange W R)
      → ev.type ≡ EvType.fill
      → deliver ev x ≡ (
          if x.has_sink
          then (book_trade ev (lookup ev.id x.working) x, fill_call ev ∷ [])
          else (x, []))
  unfolding deliver
  deliver-fill ev x e =
      ap
        (λ (t : EvType).
          let done = deliver_as t ev x in if x.has_sink then (done.0, done.1 ∷ []) else (x, []))
        e

  end_found-HasSeen :
      (id trade k : ℕ) (found : Option Working) (x : SimulatedExchange W R)
      → lookup k x.working ≡ found
      → HasSeen trade (lookup id x.working)
      → HasSeen trade (lookup id (end_found k found x).working)
  end_found-HasSeen id trade k none x e h = h
  end_found-HasSeen id trade k (some w) x e h =
      update-HasSeen id trade k w (record w { alive = false }) x.working e (λ s. s) h

  book_trade-keeps :
      (id trade : ℕ) (ev : SimEvent) (found : Option Working) (x : SimulatedExchange W R)
      → lookup ev.id x.working ≡ found
      → HasSeen trade (lookup id x.working)
      → HasSeen trade (lookup id (book_trade ev found x).working)
  book_trade-keeps id trade ev none x e h = h
  book_trade-keeps id trade ev (some w) x e h =
      let seen = record w { seen_trades = add ev.trade w.seen_trades } in
      if-both (λ (y : SimulatedExchange W R). HasSeen trade (lookup id y.working)) (counts ev w) _ _
        (λ c.
          update-HasSeen id trade ev.id w (take_fill ev w) x.working e
            (contains-add ev.trade trade w.seen_trades) h)
        (λ c.
          update-HasSeen id trade ev.id w seen x.working e
            (contains-add ev.trade trade w.seen_trades) h)

  deliver_as-keeps :
      (id trade : ℕ) (t : EvType) (ev : SimEvent) (x : SimulatedExchange W R)
      → HasSeen trade (lookup id x.working)
      → HasSeen trade (lookup id (deliver_as t ev x).0.working)
  deliver_as-keeps id trade EvType.confirm ev x h = h
  deliver_as-keeps id trade EvType.fill ev x h =
      book_trade-keeps id trade ev (lookup ev.id x.working) x refl h
  deliver_as-keeps id trade EvType.reject ev x h =
      end_found-HasSeen id trade ev.id (lookup ev.id x.working) x refl h
  deliver_as-keeps id trade EvType.cancel_ack ev x h =
      end_found-HasSeen id trade ev.id (lookup ev.id x.working) x refl h
  deliver_as-keeps id trade EvType.cancel_reject ev x h = h
  deliver_as-keeps id trade EvType.unsolicited ev x h =
      end_found-HasSeen id trade ev.id (lookup ev.id x.working) x refl h

  -- A trade that was seen stays seen, whatever is delivered.
  deliver_list-keeps :
      (id trade : ℕ) (es : List SimEvent) (x : SimulatedExchange W R)
      → HasSeen trade (lookup id x.working)
      → HasSeen trade (lookup id (deliver_list es x).0.working)
  unfolding deliver
  deliver_list-keeps id trade [] x h = h
  deliver_list-keeps id trade (e ∷ es) x h = deliver_list-keeps id trade es (deliver e x).0 (
      if-both (λ (r : SimulatedExchange W R × List SinkCall). HasSeen trade (lookup id r.0.working))
        x.has_sink _ _ (λ s. deliver_as-keeps id trade e.type e x h) (λ s. h))

  -- A fill of a trade that the order has seen moves no position.
  deliver-seen :
      (ev : SimEvent) (x : SimulatedExchange W R)
      → ev.type ≡ EvType.fill
      → HasSeen ev.trade (lookup ev.id x.working)
      → (deliver ev x).0.positions ≡ x.positions
  deliver-seen ev x e seen =
      ap (λ (r : SimulatedExchange W R × List SinkCall). r.0.positions) (deliver-fill ev x e)
      ∙ if-both (λ (r : SimulatedExchange W R × List SinkCall). r.0.positions ≡ x.positions)
          x.has_sink _ _ (λ t. book_trade-seen ev (lookup ev.id x.working) x seen) (λ t. refl)

  -- The exchange books a trade once. With a sink, the first fill of a trade of a working order
  -- moves the position of its instrument by the signed quantity, and no other position; and after
  -- any further deliveries, of whatever events, a fill of the same order and trade leaves the
  -- positions as they are, whatever its quantity.
  pub deliver-again :
      (ev dup : SimEvent) (between : List SimEvent) (x : SimulatedExchange W R) (w : Working)
      → ev.type ≡ EvType.fill
      → dup.type ≡ EvType.fill
      → dup.id ≡ ev.id
      → dup.trade ≡ ev.trade
      → x.has_sink ≡ true
      → lookup ev.id x.working ≡ some w
      → w.alive ≡ true
      → contains ev.trade w.seen_trades ≡ false
      → let y = (deliver ev x).0 in
        let z = (deliver_list between y).0 in
        (y.positions
          ≡ insert w.instrument
              (find_or (pos 0) w.instrument x.positions +ℤ signed_qty w.side ev.qty)
              x.positions)
        × ((deliver dup z).0.positions ≡ z.positions)
  deliver-again ev dup between x w e e' same_id same_trade sink found alive new =
      let y = (deliver ev x).0 in
      let z = (deliver_list between y).0 in
      let booked : y ≡ book_trade ev (lookup ev.id x.working) x =
        ap (λ (r : SimulatedExchange W R × List SinkCall). r.0) (deliver-fill ev x e)
        ∙ rw sink refl in
      let seen : HasSeen ev.trade (lookup ev.id y.working) =
        subst (λ (v : SimulatedExchange W R). HasSeen ev.trade (lookup ev.id v.working))
          (sym booked) (book_trade-HasSeen ev (lookup ev.id x.working) x refl) in
      let still = deliver_list-keeps ev.id ev.trade between y seen in
      let seen_dup : HasSeen dup.trade (lookup dup.id z.working) =
        subst (λ (t : ℕ). HasSeen t (lookup dup.id z.working)) (sym same_trade)
          (subst (λ (i : ℕ). HasSeen ev.trade (lookup i z.working)) (sym same_id) still) in
      (
        ap (λ (v : SimulatedExchange W R). v.positions) booked
            ∙ ap (λ (o : Option Working). (book_trade ev o x).positions) found
            ∙ rw (new, alive) refl,
        deliver-seen dup z e' seen_dup,
      )
