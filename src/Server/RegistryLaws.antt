-- ===== src/Server/RegistryLaws.antt =====
-- The invariants of the registry of src/server.rs, in every interleaving.
use rust_ssh.Prelude.{
  ℕ, ◌≤◌, ◌<◌, ◌≡◌, inl, inr, false, Option, none, some, ◌==◌, leb, length, arith, Bool-cases,
  Option-cases, Text, lookup, insert, lookup-remove_same, length-remove, AreKeysDistinct,
  remove-AreKeysDistinct,
}
use rust_ssh.Server.Controller.{max_pending_sessions_per_device}
use rust_ssh.Server.Registry.{
  Device, World, put, new_device, connect, stop_device, stop_previous, register_in,
  register_pending, take_pending, fail_pending, unregister, Step, connects, stops, ends, leaves,
  registers, takes, IsReachable, starts, goes,
}

-- At most 32 sessions wait for a device, no two of one name.
pub record IsBounded (d : Device) : Type 0 where
  pub count : length d.pending ≤ max_pending_sessions_per_device
  pub distinct : AreKeysDistinct d.pending

register_in-IsBounded :
    (id : Text) (sender : ℕ) (d : Device) → IsBounded d → IsBounded (register_in id sender d).1
unfolding register_in insert
register_in-IsBounded id sender d b =
    elim (Bool-cases (leb max_pending_sessions_per_device (length d.pending))) [
      | inl full ↦ rw full b
      | inr room ↦ rw room (elim (Option-cases (lookup id d.pending)) [
        | inl e ↦ rw e (record {
          count = omega (arith, length-remove id d.pending, below room);
          distinct =
              (lookup-remove_same id d.pending, remove-AreKeysDistinct id d.pending b.distinct);
        })
        | inr (v, e) ↦ rw e b
      ])
    ]
  where
    below :
        leb max_pending_sessions_per_device (length d.pending) ≡ false
        → length d.pending < max_pending_sessions_per_device
    below room = ground arith

put_lem {ℓ} :
    {A : Type 0} (P : A → Type ℓ) (r : ℕ) (a : A) (f : ℕ → A)
    → P a
    → ((k : ℕ) → P (f k))
    → (k : ℕ) → P (put r a f k)
put_lem P r a f h hs k = elim (Bool-cases (k == r)) [ inl e ↦ rw e h | inr e ↦ rw e (hs k) ]

abbrev pub AllBounded : World → Type 0
AllBounded w = (r : ℕ) → IsBounded (w.cells r)

new_device-IsBounded : IsBounded new_device
new_device-IsBounded = record { count = omega arith; distinct = tt }

stop_previous-AllBounded :
    (o : Option ℕ) (w : World) → AllBounded w → AllBounded (stop_previous o w)
unfolding stop_previous
stop_previous-AllBounded none w h = h
stop_previous-AllBounded (some r) w h =
    unfold stop_device in
    put_lem IsBounded r _ w.cells (record { count = (h r).count; distinct = (h r).distinct }) h

step-AllBounded : (w v : World) → Step w v → AllBounded w → AllBounded v
step-AllBounded _ v (connects id w) h =
    unfold connect in put_lem IsBounded w.next new_device w.cells new_device-IsBounded h
step-AllBounded _ v (stops r id previous w e) h = stop_previous-AllBounded previous w h
step-AllBounded _ v (ends r id w e) h =
    unfold fail_pending in
    put_lem IsBounded r _ w.cells (record { count = omega arith; distinct = tt }) h
step-AllBounded _ v (leaves r id w e) h = unfold unregister in h
step-AllBounded _ v (registers r id sender w) h =
    unfold register_pending in
    put_lem IsBounded r _ w.cells (register_in-IsBounded id sender (w.cells r) (h r)) h
step-AllBounded _ v (takes r id w) h =
    unfold take_pending in
    put_lem IsBounded r _ w.cells
      (record {
        count = omega (arith, length-remove id (w.cells r).pending, (h r).count);
        distinct = remove-AreKeysDistinct id (w.cells r).pending (h r).distinct;
      })
      h

-- In every interleaving, at most 32 sessions wait for each device, no two of one name.
pub IsReachable-AllBounded : (w : World) → IsReachable w → AllBounded w
IsReachable-AllBounded w starts = λ r. new_device-IsBounded
IsReachable-AllBounded w (goes {w = u} reach step) =
    step-AllBounded u w step (IsReachable-AllBounded u reach)
