-- ===== src/SimulatedExchange/Delivery.antt =====
-- What a poll of the simulated exchange delivers (sim/SimulatedExchange.cpp): all that is due, in its order.
use delta_assignment.Common.{
  ℕ, suc, ◌+◌, Bool, true, false, List, [], ◌∷◌, ◌++◌, Option, none, some, ◌≡◌, refl, sym, ap,
  subst, ◌∙◌, inl, inr, Bool-cases, if-both, count-swap, insert_by, ltb, if◌then◌else◌, arith,
}
use delta_assignment.Common.Int.{ℤ, ◌+ℤ◌, ◌≤ℤ◌, ◌<ℤ◌, leb_ℤ, ltb_ℤ, eqb_ℤ}
use delta_assignment.Common.Dict.{lookup}
use delta_assignment.SimulatedExchange.{
  SimConfig, SimEvent, EvType, Working, SimulatedExchange, SinkCall, comes_first, counts,
  book_trade, end_found, schedule, deliver_as, deliver, deliver_due, poll,
}

-- Events no earlier than a time, and later than a time.
abbrev pub AllFrom : ℤ → List SimEvent → Type 0
AllFrom t [] = Unit {0}
AllFrom t (e ∷ q) = (t ≤ℤ e.at_ns) × AllFrom t q

abbrev AllAfter : ℤ → List SimEvent → Type 0
AllAfter t [] = Unit {0}
AllAfter t (e ∷ q) = (t <ℤ e.at_ns) × AllAfter t q

abbrev pub IsOrdered : List SimEvent → Type 0
IsOrdered [] = Unit {0}
IsOrdered (e ∷ q) = AllFrom e.at_ns q × IsOrdered q

-- The events of a queue that are due at a time, and the others.
abbrev pub due : ℤ → List SimEvent → List SimEvent
due t [] = []
due t (e ∷ q) = if leb_ℤ e.at_ns t then e ∷ due t q else due t q

abbrev pub later : ℤ → List SimEvent → List SimEvent
later t [] = []
later t (e ∷ q) = if leb_ℤ e.at_ns t then later t q else e ∷ later t q

-- How many events pass a test.
abbrev pub count : (SimEvent → Bool) → List SimEvent → ℕ
count p [] = 0
count p (e ∷ q) = if p e then suc (count p q) else count p q

first_le : (a b : ℤ) (c : Bool) → (if eqb_ℤ a b then c else ltb_ℤ a b) ≡ true → a ≤ℤ b
first_le a b c h = ground arith

first_ge : (a b : ℤ) (c : Bool) → (if eqb_ℤ a b then c else ltb_ℤ a b) ≡ false → b ≤ℤ a
first_ge a b c h = ground arith

leb_ℤ→gt : (a b : ℤ) → leb_ℤ a b ≡ false → b <ℤ a
leb_ℤ→gt a b h = ground arith

AllFrom-weaken : (t u : ℤ) (q : List SimEvent) → t ≤ℤ u → AllFrom u q → AllFrom t q
AllFrom-weaken t u [] h a = tt
AllFrom-weaken t u (e ∷ q) h (k, a) = (omega arith, AllFrom-weaken t u q h a)

AllFrom-AllAfter : (t u : ℤ) (q : List SimEvent) → t <ℤ u → AllFrom u q → AllAfter t q
AllFrom-AllAfter t u [] h a = tt
AllFrom-AllAfter t u (e ∷ q) h (k, a) = (omega arith, AllFrom-AllAfter t u q h a)

comes_first-le : (a b : SimEvent) → comes_first a b ≡ true → a.at_ns ≤ℤ b.at_ns
comes_first-le a b h = first_le a.at_ns b.at_ns (ltb a.seq b.seq) h

comes_first-ge : (a b : SimEvent) → comes_first a b ≡ false → b.at_ns ≤ℤ a.at_ns
comes_first-ge a b h = first_ge a.at_ns b.at_ns (ltb a.seq b.seq) h

gt→leb_ℤ : (a b : ℤ) → b <ℤ a → leb_ℤ a b ≡ false
gt→leb_ℤ a b h = ground arith

add_zero : (n : ℕ) → n + 0 ≡ n
add_zero n = omega arith

count-regroup : (a : Bool) (m n : ℕ) → m + (if a then suc n else n) ≡ (if a then suc m else m) + n
count-regroup a m n = ground arith

AllFrom-insert_by :
    (t : ℤ) (ev : SimEvent) (q : List SimEvent)
    → t ≤ℤ ev.at_ns
    → AllFrom t q
    → AllFrom t (insert_by comes_first ev q)
AllFrom-insert_by t ev [] h a = (h, tt)
AllFrom-insert_by t ev (e ∷ q) h (k, a) =
    if-both (AllFrom t) (comes_first e ev) (e ∷ insert_by comes_first ev q) (ev ∷ (e ∷ q))
      (λ c. (k, AllFrom-insert_by t ev q h a)) (λ c. (h, (k, a)))

insert_by-IsOrdered :
    (ev : SimEvent) (q : List SimEvent) → IsOrdered q → IsOrdered (insert_by comes_first ev q)
insert_by-IsOrdered ev [] o = (tt, tt)
insert_by-IsOrdered ev (e ∷ q) (a, o) =
    if-both IsOrdered (comes_first e ev) (e ∷ insert_by comes_first ev q) (ev ∷ (e ∷ q))
      (λ c. (AllFrom-insert_by e.at_ns ev q (comes_first-le e ev c) a, insert_by-IsOrdered ev q o))
      (λ c. let h = comes_first-ge e ev c in ((h, AllFrom-weaken ev.at_ns e.at_ns q h a), (a, o)))

AllAfter-due : (t : ℤ) (q : List SimEvent) → AllAfter t q → (due t q ≡ []) × (later t q ≡ q)
AllAfter-due t [] a = (refl, refl)
AllAfter-due t (e ∷ q) (k, a) =
    let (none_due, all_later) = AllAfter-due t q a in
    rw (gt→leb_ℤ e.at_ns t k) (none_due, ap (λ (r : List SimEvent). e ∷ r) all_later)

count-insert_by :
    (p : SimEvent → Bool) (ev : SimEvent) (q : List SimEvent)
    → count p (insert_by comes_first ev q) ≡ count p (ev ∷ q)
count-insert_by p ev [] = refl
count-insert_by p ev (e ∷ q) =
    if-both (λ (r : List SimEvent). count p r ≡ count p (ev ∷ (e ∷ q))) (comes_first e ev) _ _
      (λ c. count-swap (p e) (p ev) _ _ (count-insert_by p ev q)) (λ c. refl)

module _ {W R : Type 0} where
  -- Deliveries one after the other, and the calls of the sink.
  abbrev pub deliver_list :
      List SimEvent → SimulatedExchange W R → SimulatedExchange W R × List SinkCall
  deliver_list [] x = (x, [])
  deliver_list (e ∷ es) x =
      let one = deliver e x in let rest = deliver_list es one.0 in (rest.0, one.1 ++ rest.1)

  end_found-now :
      (id : ℕ) (found : Option Working) (x : SimulatedExchange W R)
      → (end_found id found x).now ≡ x.now
  end_found-now id none x = refl
  end_found-now id (some w) x = refl

  book_trade-now :
      (ev : SimEvent) (found : Option Working) (x : SimulatedExchange W R)
      → (book_trade ev found x).now ≡ x.now
  book_trade-now ev none x = refl
  book_trade-now ev (some w) x =
      if-both (λ (y : SimulatedExchange W R). y.now ≡ x.now) (counts ev w) _ _ (λ e. refl)
        (λ e. refl)

  deliver_as-now :
      (t : EvType) (ev : SimEvent) (x : SimulatedExchange W R) → (deliver_as t ev x).0.now ≡ x.now
  deliver_as-now EvType.confirm ev x = refl
  deliver_as-now EvType.fill ev x = book_trade-now ev (lookup ev.id x.working) x
  deliver_as-now EvType.reject ev x = end_found-now ev.id (lookup ev.id x.working) x
  deliver_as-now EvType.cancel_ack ev x = end_found-now ev.id (lookup ev.id x.working) x
  deliver_as-now EvType.cancel_reject ev x = refl
  deliver_as-now EvType.unsolicited ev x = end_found-now ev.id (lookup ev.id x.working) x

  deliver-now : (ev : SimEvent) (x : SimulatedExchange W R) → (deliver ev x).0.now ≡ x.now
  unfolding deliver
  deliver-now ev x =
      if-both (λ (r : SimulatedExchange W R × List SinkCall). r.0.now ≡ x.now) x.has_sink _ _
        (λ e. deliver_as-now ev.type ev x) (λ e. refl)

  deliver_due_lem :
      (q : List SimEvent) (x : SimulatedExchange W R)
      → IsOrdered q
      → let told = deliver_list (due x.now q) x in
        deliver_due q x ≡ (record told.0 { queue = later x.now q }, told.1)
  deliver_due_lem [] x o = refl
  deliver_due_lem (e ∷ q) x (a, o) = elim (Bool-cases (leb_ℤ e.at_ns x.now)) [
    | inl h ↦
        let one = deliver e x in
        let Done : ℤ → Type 0 = λ t. deliver_due q one.0 ≡ (
          record (deliver_list (due t q) one.0).0 { queue = later t q },
          (deliver_list (due t q) one.0).1,
        ) in
        let rest = subst Done (deliver-now e x) (deliver_due_lem q one.0 o) in
        rw h (ap (λ (r : SimulatedExchange W R × List SinkCall). (r.0, one.1 ++ r.1)) rest)
    | inr h ↦
        let (none_due, all_later) =
          AllAfter-due x.now q (AllFrom-AllAfter x.now e.at_ns q (leb_ℤ→gt e.at_ns x.now h) a) in
        rw (h, none_due, all_later) refl
  ]

  abbrev pub schedule_all : List SimEvent → SimulatedExchange W R → SimulatedExchange W R
  schedule_all [] x = x
  schedule_all (e ∷ es) x = schedule_all es (schedule e x)

  schedule_all-IsOrdered :
      (es : List SimEvent) (x : SimulatedExchange W R)
      → IsOrdered x.queue
      → IsOrdered (schedule_all es x).queue
        × ((schedule_all es x).now ≡ x.now)
        × ((schedule_all es x).cfg ≡ x.cfg)
  unfolding schedule
  schedule_all-IsOrdered [] x o = (o, refl, refl)
  schedule_all-IsOrdered (e ∷ es) x o =
      schedule_all-IsOrdered es (schedule e x)
        (insert_by-IsOrdered (record e { seq = x.seq_counter }) x.queue o)

  count-schedule_all :
      (p : SimEvent → Bool) (es : List SimEvent) (x : SimulatedExchange W R)
      → ((e : SimEvent) (n : ℕ) → p (record e { seq = n }) ≡ p e)
      → count p (schedule_all es x).queue ≡ count p es + count p x.queue
  unfolding schedule
  count-schedule_all p [] x h = omega arith
  count-schedule_all p (e ∷ es) x h =
      let ev = record e { seq = x.seq_counter } in
      count-schedule_all p es (schedule e x) h
      ∙ ap (λ (n : ℕ). count p es + n) (count-insert_by p ev x.queue)
      ∙ rw (h e x.seq_counter) (count-regroup (p e) (count p es) (count p x.queue))

  -- A poll delivers all that is due and nothing else: of the events that were scheduled, in
  -- whatever order, on an exchange with an empty queue, it tells the sink of exactly those no
  -- later than the time that it advances to, one after the other by their times, and keeps
  -- exactly the later ones. The queue that it reads holds each scheduled event once: as many as
  -- pass any test that does not read the sequence number.
  pub poll-schedule_all :
      (es : List SimEvent) (x : SimulatedExchange W R) (p : SimEvent → Bool)
      → x.queue ≡ []
      → ((e : SimEvent) (n : ℕ) → p (record e { seq = n }) ≡ p e)
      → let y = schedule_all es x in
        let t = x.now +ℤ x.cfg.step_ns in
        let told = deliver_list (due t y.queue) (record y { now = t }) in
        (poll y ≡ (record told.0 { queue = later t y.queue }, told.1))
        × IsOrdered y.queue
        × (count p y.queue ≡ count p es)
  unfolding poll
  poll-schedule_all es x p e h =
      let y = schedule_all es x in
      let (o, t, c) = schedule_all-IsOrdered es x (subst IsOrdered (sym e) tt) in
      let same : y.now +ℤ y.cfg.step_ns ≡ x.now +ℤ x.cfg.step_ns =
        ap (λ (n : ℤ). n +ℤ y.cfg.step_ns) t ∙ ap (λ (k : SimConfig W). x.now +ℤ k.step_ns) c in
      let Done : ℤ → Type 0 = λ n.
        let told = deliver_list (due n y.queue) (record y { now = n }) in
        deliver_due y.queue (record y { now = y.now +ℤ y.cfg.step_ns })
        ≡ (record told.0 { queue = later n y.queue }, told.1) in
      (
        subst Done same (deliver_due_lem y.queue (record y { now = y.now +ℤ y.cfg.step_ns }) o),
        o,
        count-schedule_all p es x h
            ∙ ap (λ (q : List SimEvent). count p es + count p q) e
            ∙ add_zero (count p es),
      )
