-- ===== src/Server/OwnerLaws.antt =====
-- Which handler owns an entry of `devices`: a replaced agent never unregisters its successor.
use rust_ssh.Prelude.{
  ℕ, ◌≤◌, ◌≡◌, refl, ap, sym, subst, ◌∙◌, ◌⊎◌, inl, inr, List, true, false, Option, none, some,
  ◌==◌, ==_iff, arith, Bool-cases, Text, list_eq, list_eq_iff, lookup, insert, remove,
  lookup-remove_same, lookup-remove_other, lookup-insert_same, lookup-insert_other,
}
use rust_ssh.Server.Registry.{
  Device, Phase, unborn, replacing, serving, ended, left, World, put, connect, stop_device,
  stop_previous, register_in, register_pending, take_pending, fail_pending, removed_if, unregister,
  with_phase, Step, connects, stops, ends, leaves, registers, takes, IsReachable, starts, goes,
}

-- The id that the handler of a device serves, from its start until it has unregistered.
abbrev pub served_id : Phase → Option Text
served_id unborn = none
served_id (replacing id previous) = some id
served_id (serving id) = some id
served_id (ended id) = some id
served_id left = none

abbrev pub IsStopping : World → ℕ → Type 0
IsStopping w r = (q : ℕ) × (id : Text) × (w.phases q ≡ replacing id (some r))

-- The entry of an id is a device whose handler runs, for that id; and a handler that runs has its
-- entry, or its device has been told to stop, or another handler is about to tell it.
pub record IsOwned (w : World) : Type 0 where
  pub entries :
      (id : Text) (r : ℕ) → lookup id w.devices ≡ some r → served_id (w.phases r) ≡ some id
  pub handlers :
      (id : Text) (r : ℕ)
      → served_id (w.phases r) ≡ some id
      → (lookup id w.devices ≡ some r) ⊎ (((w.cells r).shutdown_tx ≡ false) ⊎ IsStopping w r)
  pub fresh : (r : ℕ) → w.next ≤ r → w.phases r ≡ unborn

put_same : {A : Type 0} (r : ℕ) (a : A) (f : ℕ → A) → put r a f r ≡ a
put_same r a f = ground arith

put_other : {A : Type 0} (r k : ℕ) (a : A) (f : ℕ → A) → (k == r) ≡ false → put r a f k ≡ f k
put_other r k a f h = rw h

phase_kept :
    (w : World) (q : ℕ) (p : Phase)
    → served_id p ≡ served_id (w.phases q)
    → (r : ℕ) → served_id (put q p w.phases r) ≡ served_id (w.phases r)
phase_kept w q p h r = elim (Bool-cases (r == q)) [
  | inl same ↦ rw same (h ∙ ap (λ k. served_id (w.phases k)) (sym ((==_iff r q).0 same)))
  | inr other ↦ rw other
]

-- A handler that is about to stop `r` still is, unless it is the one whose phase changed.
stopping_kept :
    (w : World) (q : ℕ) (p : Phase) (r : ℕ)
    → IsStopping w r
    → ((i : Text) × (w.phases q ≡ replacing i (some r)))
      ⊎ ((k : ℕ) × (i : Text) × (put q p w.phases k ≡ replacing i (some r)))
stopping_kept w q p r (k, i, s) = elim (Bool-cases (k == q)) [
  | inl same ↦ inl (i, ap w.phases (sym ((==_iff k q).0 same)) ∙ s)
  | inr other ↦ inr (k, i, put_other q k p w.phases other ∙ s)
]

module _ (w : World) (o : IsOwned w) where
  born : (r : ℕ) → ¬ (w.phases r ≡ unborn) → (r == w.next) ≡ false
  born r h = elim (Bool-cases (r == w.next)) [
    | inl same ↦ absurd (h (o.fresh r (ground arith)))
    | inr other ↦ other
  ]

  serves_born : (r : ℕ) (id : Text) → served_id (w.phases r) ≡ some id → (r == w.next) ≡ false
  serves_born r id e = born r λ u. clash (ap served_id (sym u) ∙ e)
    where
      clash : ◌≡◌ {A = Option Text} none (some id) → ⊥
      clash k = cc

  connect_entries :
      (id j : Text) (r : ℕ)
      → lookup j (connect id w).devices ≡ some r
      → served_id ((connect id w).phases r) ≡ some j
  unfolding connect
  connect_entries id j r e = elim (Bool-cases (list_eq id j)) [
    | inl same ↦
        let ij : id ≡ j = (list_eq_iff id j).0 same in
        let found : lookup j (insert id w.next w.devices) ≡ some w.next =
          ap (λ x. lookup x (insert id w.next w.devices)) (sym ij)
          ∙ lookup-insert_same id w.next w.devices in
        let nr : w.next ≡ r = cc (found, e) in
        ap (λ k. served_id (put w.next (replacing id (lookup id w.devices)) w.phases k)) (sym nr)
        ∙ ap served_id (put_same w.next (replacing id (lookup id w.devices)) w.phases)
        ∙ ap some ij
    | inr other ↦
        let before = o.entries j r (sym (lookup-insert_other id j w.next w.devices other) ∙ e) in
        ap served_id (put_other w.next r _ w.phases (serves_born r j before)) ∙ before
  ]

  connect_handlers :
      (id j : Text) (r : ℕ)
      → served_id ((connect id w).phases r) ≡ some j
      → (lookup j (connect id w).devices ≡ some r)
        ⊎ ((((connect id w).cells r).shutdown_tx ≡ false) ⊎ IsStopping (connect id w) r)
  unfolding connect
  connect_handlers id j r e = elim (Bool-cases (r == w.next)) [
    | inl same ↦
        let rn : r ≡ w.next = (==_iff r w.next).0 same in
        let now : served_id (put w.next (replacing id (lookup id w.devices)) w.phases r) ≡ some id =
          rw same in
        let ij : id ≡ j = cc (now, e) in
        inl (
          ap (λ x. lookup x (insert id w.next w.devices)) (sym ij)
          ∙ lookup-insert_same id w.next w.devices
          ∙ ap some (sym rn))
    | inr other ↦
        let before : served_id (w.phases r) ≡ some j =
          ap served_id (sym (put_other w.next r _ w.phases other)) ∙ e in
        elim (o.handlers j r before) [
          | inl k ↦ elim (Bool-cases (list_eq id j)) [
            | inl same ↦
                let ij : id ≡ j = (list_eq_iff id j).0 same in
                inr (
                  inr (
                    w.next,
                    id,
                    put_same w.next _ w.phases
                        ∙ ap (replacing id) (ap (λ x. lookup x w.devices) ij ∙ k),
                  ))
            | inr apart ↦ inl (lookup-insert_other id j w.next w.devices apart ∙ k)
          ]
          | inr (inl told) ↦
              inr (inl (ap (λ d. d.shutdown_tx) (put_other w.next r _ w.cells other) ∙ told))
          | inr (inr (q, i, s)) ↦
              inr (inr (q, i, put_other w.next q _ w.phases (born q (λ u. cc (u, s))) ∙ s))
        ]
  ]

  connect-IsOwned : (id : Text) → IsOwned (connect id w)
  unfolding connect
  connect-IsOwned id = record {
    entries = connect_entries id;
    handlers = connect_handlers id;
    fresh = λ r h. put_other w.next r _ w.phases (ground arith) ∙ o.fresh r (omega arith);
  }

  -- A step that keeps the map of devices and who serves what.
  kept-IsOwned :
      (v : World)
      → v.devices ≡ w.devices
      → ((r : ℕ) → served_id (v.phases r) ≡ served_id (w.phases r))
      → ((r : ℕ) → (w.cells r).shutdown_tx ≡ false → (v.cells r).shutdown_tx ≡ false)
      → ((r : ℕ) → IsStopping w r → ((v.cells r).shutdown_tx ≡ false) ⊎ IsStopping v r)
      → ((r : ℕ) → v.next ≤ r → v.phases r ≡ unborn)
      → IsOwned v
  kept-IsOwned v d h t k f = record {
    entries = λ id r e. h r ∙ o.entries id r (ap (lookup id) (sym d) ∙ e);
    handlers = λ id r e. elim (o.handlers id r (sym (h r) ∙ e)) [
      | inl m ↦ inl (ap (lookup id) d ∙ m)
      | inr (inl told) ↦ inr (inl (t r told))
      | inr (inr s) ↦ inr (k r s)
    ];
    fresh = f;
  }

  stop_previous_told :
      (previous : Option ℕ) (r : ℕ)
      → (w.cells r).shutdown_tx ≡ false
      → ((stop_previous previous w).cells r).shutdown_tx ≡ false
  unfolding stop_previous stop_device
  stop_previous_told none r h = h
  stop_previous_told (some q) r h = elim (Bool-cases (r == q)) [
    | inl same ↦ rw same
    | inr other ↦ rw other h
  ]

  stop_previous_tells : (r : ℕ) → ((stop_previous (some r) w).cells r).shutdown_tx ≡ false
  unfolding stop_previous stop_device
  stop_previous_tells r = ap (λ d. d.shutdown_tx) (put_same r _ w.cells)

  stop_previous_rest :
      (previous : Option ℕ)
      → ((stop_previous previous w).devices ≡ w.devices)
        × ((stop_previous previous w).phases ≡ w.phases)
        × ((stop_previous previous w).next ≡ w.next)
  unfolding stop_previous stop_device
  stop_previous_rest none = (refl, refl, refl)
  stop_previous_rest (some r) = (refl, refl, refl)

  -- A handler that has begun keeps the numbers from `next` on unused.
  fresh_kept :
      (q : ℕ) (p : Phase)
      → ¬ (w.phases q ≡ unborn)
      → (r : ℕ) → w.next ≤ r
      → put q p w.phases r ≡ unborn
  fresh_kept q p h r k = elim (Bool-cases (r == q)) [
    | inl same ↦ absurd (h (ap w.phases (sym ((==_iff r q).0 same)) ∙ o.fresh r k))
    | inr other ↦ put_other q r p w.phases other ∙ o.fresh r k
  ]

  stops-IsOwned :
      (q : ℕ) (id : Text) (previous : Option ℕ)
      → w.phases q ≡ replacing id previous
      → IsOwned (with_phase q (serving id) (stop_previous previous w))
  stops-IsOwned q id previous e =
      let (d, ph, n) = stop_previous_rest previous in
      let v : World = with_phase q (serving id) (stop_previous previous w) in
      let same_phases : v.phases ≡ put q (serving id) w.phases = ap (put q (serving id)) ph in
      kept-IsOwned v d
        (λ r.
          ap (λ f. served_id (f r)) same_phases
          ∙ phase_kept w q (serving id) (sym (ap served_id e)) r)
        (stop_previous_told previous)
        (λ r s. elim (stopping_kept w q (serving id) r s) [
          | inl (i, h) ↦
              let hit : previous ≡ some r = cc (e, h) in
              inl (ap (λ x. ((stop_previous x w).cells r).shutdown_tx) hit ∙ stop_previous_tells r)
          | inr (k, i, h) ↦ inr (k, i, ap (λ f. f k) same_phases ∙ h)
        ])
        (λ r k.
          ap (λ f. f r) same_phases
          ∙ fresh_kept q (serving id) (λ u. cc (u, e)) r (subst (λ m. m ≤ r) n k))

  -- The cells may change in what is pending.
  put_shutdown :
      (q : ℕ) (d : Device)
      → d.shutdown_tx ≡ (w.cells q).shutdown_tx
      → (r : ℕ) → (w.cells r).shutdown_tx ≡ false
      → (put q d w.cells r).shutdown_tx ≡ false
  put_shutdown q d h r k = elim (Bool-cases (r == q)) [
    | inl same ↦ rw same (h ∙ ap (λ x. (w.cells x).shutdown_tx) (sym ((==_iff r q).0 same)) ∙ k)
    | inr other ↦ rw other k
  ]

  cells-IsOwned :
      (q : ℕ) (d : Device)
      → d.shutdown_tx ≡ (w.cells q).shutdown_tx
      → IsOwned (record w { cells = put q d w.cells })
  cells-IsOwned q d h =
      kept-IsOwned (record w { cells = put q d w.cells }) refl (λ r. refl) (put_shutdown q d h)
        (λ r s. inr s) o.fresh

  ends-IsOwned :
      (q : ℕ) (id : Text)
      → w.phases q ≡ serving id
      → IsOwned (with_phase q (ended id) (fail_pending q w).1)
  unfolding fail_pending
  ends-IsOwned q id e =
      kept-IsOwned (with_phase q (ended id) (fail_pending q w).1) refl
        (phase_kept w q (ended id) (sym (ap served_id e))) (put_shutdown q _ refl)
        (λ r s. elim (stopping_kept w q (ended id) r s) [
          | inl (i, h) ↦ absurd (cc (e, h))
          | inr t ↦ inr t
        ])
        (fresh_kept q (ended id) (λ u. cc (u, e)))

-- What `unregister` leaves was there, and is not the entry of the device that leaves.
removed_was :
    (id : Text) (q : ℕ) (devices : List (Text × ℕ)) (found : Option ℕ)
    → lookup id devices ≡ found
    → (j : Text) (r : ℕ) → lookup j (removed_if id q found devices) ≡ some r
    → (lookup j devices ≡ some r) × (list_eq id j ≡ true → r ≡ q → ⊥)
unfolding removed_if
removed_was id q devices none f j r e = (
  e,
  λ same rq.
      let ij : id ≡ j = (list_eq_iff id j).0 same in
      let here : lookup id devices ≡ some r = ap (λ x. lookup x devices) ij ∙ e in cc (f, here),
)
removed_was id q devices (some c) f j r e = elim (Bool-cases (c == q)) [
  | inl mine ↦
      let after : lookup j (remove id devices) ≡ some r = rw mine at e in
      elim (Bool-cases (list_eq id j)) [
        | inl same ↦
            let ij : id ≡ j = (list_eq_iff id j).0 same in
            let gone : lookup j (remove id devices) ≡ none =
              ap (λ x. lookup x (remove id devices)) (sym ij) ∙ lookup-remove_same id devices in
            absurd (cc (gone, after))
        | inr apart ↦
            (sym (lookup-remove_other id j devices apart) ∙ after, λ same rq. cc (same, apart))
      ]
  | inr theirs ↦
      let after : lookup j devices ≡ some r = rw theirs at e in
      (
        after,
        λ same rq.
            let ij : id ≡ j = (list_eq_iff id j).0 same in
            let here : lookup id devices ≡ some r = ap (λ x. lookup x devices) ij ∙ after in
            let cr : c ≡ r = cc (f, here) in cc ((==_iff c q).1 (cr ∙ rq), theirs),
      )
]

-- It leaves the entries of all other devices.
removed_keeps :
    (id : Text) (q : ℕ) (devices : List (Text × ℕ)) (found : Option ℕ)
    → lookup id devices ≡ found
    → (j : Text) (r : ℕ) → lookup j devices ≡ some r
    → (r == q) ≡ false
    → lookup j (removed_if id q found devices) ≡ some r
unfolding removed_if
removed_keeps id q devices none f j r e h = e
removed_keeps id q devices (some c) f j r e h = elim (Bool-cases (c == q)) [
  | inl mine ↦ rw mine (elim (Bool-cases (list_eq id j)) [
    | inl same ↦
        let ij : id ≡ j = (list_eq_iff id j).0 same in
        let here : lookup id devices ≡ some r = ap (λ x. lookup x devices) ij ∙ e in
        let cr : c ≡ r = cc (f, here) in absurd (cc (ap (λ x. x == q) (sym cr) ∙ mine, h))
    | inr apart ↦ lookup-remove_other id j devices apart ∙ e
  ])
  | inr theirs ↦ rw theirs e
]

module _ (w : World) (o : IsOwned w) (q : ℕ) (id : Text) (e : w.phases q ≡ ended id) where
  abbrev after : World
  unfolding unregister
  after = with_phase q left (unregister id q w)

  leaves_entries :
      (j : Text) (r : ℕ) → lookup j after.devices ≡ some r → served_id (after.phases r) ≡ some j
  unfolding after unregister
  leaves_entries j r k =
      let (before, others) = removed_was id q w.devices (lookup id w.devices) refl j r k in
      let served = o.entries j r before in
      elim (Bool-cases (r == q)) [
        | inl same ↦
            let rq : r ≡ q = (==_iff r q).0 same in
            let here : served_id (w.phases r) ≡ some id =
              ap (λ x. served_id (w.phases x)) rq ∙ ap served_id e in
            let ij : id ≡ j = cc (here, served) in absurd (others ((list_eq_iff id j).1 ij) rq)
        | inr other ↦ ap served_id (put_other q r left w.phases other) ∙ served
      ]

  leaves_handlers :
      (j : Text) (r : ℕ)
      → served_id (after.phases r) ≡ some j
      → (lookup j after.devices ≡ some r)
        ⊎ (((after.cells r).shutdown_tx ≡ false) ⊎ IsStopping after r)
  unfolding after unregister
  leaves_handlers j r k = elim (Bool-cases (r == q)) [
    | inl same ↦
        let gone : served_id (put q left w.phases r) ≡ none = rw same in absurd (cc (gone, k))
    | inr other ↦
        let before : served_id (w.phases r) ≡ some j =
          ap served_id (sym (put_other q r left w.phases other)) ∙ k in
        elim (o.handlers j r before) [
          | inl m ↦ inl (removed_keeps id q w.devices (lookup id w.devices) refl j r m other)
          | inr (inl told) ↦ inr (inl told)
          | inr (inr s) ↦ elim (stopping_kept w q left r s) [
            | inl (i, h) ↦ absurd (cc (e, h))
            | inr t ↦ inr (inr t)
          ]
        ]
  ]

  leaves-IsOwned : IsOwned after
  unfolding after unregister
  leaves-IsOwned = record {
    entries = leaves_entries;
    handlers = leaves_handlers;
    fresh = fresh_kept w o q left (λ u. cc (u, e));
  }

step-IsOwned : (w v : World) → Step w v → IsOwned w → IsOwned v
unfolding after
step-IsOwned _ v (connects id w) o = connect-IsOwned w o id
step-IsOwned _ v (stops r id previous w e) o = stops-IsOwned w o r id previous e
step-IsOwned _ v (ends r id w e) o = ends-IsOwned w o r id e
step-IsOwned _ v (leaves r id w e) o = leaves-IsOwned w o r id e
step-IsOwned _ v (registers r id sender w) o =
    unfold register_pending in cells-IsOwned w o r _ (same_shutdown id sender (w.cells r))
  where
    same_shutdown :
        (id : Text) (sender : ℕ) (d : Device)
        → (register_in id sender d).1.shutdown_tx ≡ d.shutdown_tx
    same_shutdown id sender d = unfold register_in in ground arith
step-IsOwned _ v (takes r id w) o = unfold take_pending in cells-IsOwned w o r _ refl

-- In every interleaving, the entry of an id is a device whose handler runs for that id, so no
-- handler takes out the entry of its successor; and a handler that runs has its entry, or its
-- device has been told to stop, or the handler that replaced it is about to tell it.
pub IsReachable-IsOwned : (w : World) → IsReachable w → IsOwned w
IsReachable-IsOwned w starts = record {
  entries = λ id r e. unfold lookup in cc;
  handlers = λ id r e. cc;
  fresh = λ r h. refl;
}
IsReachable-IsOwned w (goes {w = u} reach step) =
    step-IsOwned u w step (IsReachable-IsOwned u reach)
