-- ===== src/Server/ReloadLaws.antt =====
-- src/server.rs: the snapshot in force is the last one that could be loaded.
use rust_ssh.Prelude.{subst, ◌≡◌, refl, ◌⊎◌, inl, inr, List, [], ◌∷◌}
use rust_ssh.Server.Tokens.{
  LoadError, Loaded, loaded, not_loaded, AuthSnapshot, TokenFiles, load_auth_snapshot,
  spawn_auth_reload, auth_after,
}
use rust_ssh.Server.LoadLaws.{bind_loaded, loaded_injective}

-- The last load of a sequence that gave a snapshot is the one in force.
pub data IsLastValid : List TokenFiles → AuthSnapshot → AuthSnapshot → Type 0 where
  is_first : (auth : AuthSnapshot) → IsLastValid [] auth auth
  is_newer :
      (files : TokenFiles) (ticks : List TokenFiles) (old next auth : AuthSnapshot)
      → load_auth_snapshot files ≡ loaded next
      → IsLastValid ticks next auth
      → IsLastValid (files ∷ ticks) old auth
  is_kept :
      (files : TokenFiles) (ticks : List TokenFiles) (old auth : AuthSnapshot) (x : LoadError)
      → load_auth_snapshot files ≡ not_loaded x
      → IsLastValid ticks old auth
      → IsLastValid (files ∷ ticks) old auth

Loaded-cases :
    {A : Type 0} (x : Loaded A)
    → ((a : A) × (x ≡ loaded a)) ⊎ ((e : LoadError) × (x ≡ not_loaded e))
Loaded-cases (loaded a) = inl (a, refl)
Loaded-cases (not_loaded e) = inr (e, refl)

spawn_auth_reload-IsLastValid :
    (ticks : List TokenFiles) (old : AuthSnapshot)
    → IsLastValid ticks old (spawn_auth_reload ticks old)
unfolding spawn_auth_reload
spawn_auth_reload-IsLastValid [] old = is_first old
spawn_auth_reload-IsLastValid (files ∷ ticks) old = elim (Loaded-cases (load_auth_snapshot files)) [
  | inl (next, e) ↦
      rw e (is_newer files ticks old next _ e (spawn_auth_reload-IsLastValid ticks next))
  | inr (x, e) ↦ rw e (is_kept files ticks old _ x e (spawn_auth_reload-IsLastValid ticks old))
]

-- A server that started goes by the snapshot of one of its loads, whatever the files were at its
-- ticks: the last one that was valid.
pub auth_after-IsLastValid :
    (files : TokenFiles) (ticks : List TokenFiles) (auth : AuthSnapshot)
    → auth_after files ticks ≡ loaded auth
    → (first : AuthSnapshot) × (load_auth_snapshot files ≡ loaded first)
      × IsLastValid ticks first auth
unfolding auth_after
auth_after-IsLastValid files ticks auth e =
    let (first, started, rest) = bind_loaded (load_auth_snapshot files) _ auth e in
    (
      first,
      started,
      subst (IsLastValid ticks first) (loaded_injective rest)
          (spawn_auth_reload-IsLastValid ticks first),
    )
