-- ===== src/Installer/Laws.antt =====
-- src/bin/rust-ssh-installer-helper.rs: nothing is terminated unless the user agreed, and the
-- installer goes on only when the program does not run.
use rust_ssh.Prelude.{
  ◌<◌, ◌≤◌, ◌⊎◌, arith, ℕ, zero, suc, ◌+◌, ◌≡◌, refl, sym, ap, ◌∙◌, List, [], ◌∷◌, ◌++◌, Bool, true,
  false, not, ◌&&◌, Option, none, some, ◌==◌, leb, any, all, length, is_empty, inl, inr, Bool-cases,
  Text, ret, call, Always, Always-bind, if◌then◌else◌,
}
use rust_ssh.Installer.{
  ProcessEntry, create_snapshot, now, process_first, process_next, terminate, message_box, sleep,
  ok_cancel, id_ok, icon_warning, CloseError, cancelled, out_of_fuel, failed_with, Closed, done,
  not_done, Win, WinLog, ◌>>=◌, eq_ignore_ascii_case, utf16_name, push_id, collect_ids,
  snapshot_ids, process_ids, terminate_process, terminate_all, await_exit, still_running, prompt,
  close_agreed, close_if_running, unfinished, exit_code, run_helper,
}

-- The user has pressed OK in the question.
abbrev pub is_agreed : WinLog → Bool
is_agreed [] = false
is_agreed ((message_box text kind, answer) ∷ log) =
    let rest = is_agreed log in if kind == ok_cancel + icon_warning then answer == id_ok else rest
is_agreed (event ∷ log) = is_agreed log

-- A process was terminated only after that.
abbrev pub IsPolite : WinLog → Type 0
IsPolite [] = Unit {0}
IsPolite ((terminate handle, r) ∷ log) = (is_agreed log ≡ true) × IsPolite log
IsPolite (event ∷ log) = IsPolite log

-- The processes of the last listing.
abbrev pub last_listing : WinLog → List ProcessEntry
last_listing [] = []
last_listing ((create_snapshot, r) ∷ log) = []
last_listing ((process_first snapshot, some entry) ∷ log) = entry ∷ last_listing log
last_listing ((process_next snapshot, some entry) ∷ log) = entry ∷ last_listing log
last_listing (event ∷ log) = last_listing log

-- How often it has slept.
abbrev pub sleeps_in : WinLog → ℕ
sleeps_in [] = 0
sleeps_in ((sleep t, r) ∷ log) = suc (sleeps_in log)
sleeps_in (event ∷ log) = sleeps_in log

-- The user's answer, and the sleeps.
abbrev pub Inv : Bool → ℕ → WinLog → Type 0
Inv agreed sleeps log = IsPolite log × (is_agreed log ≡ agreed) × (sleeps_in log ≡ sleeps)

-- The fuel of the loop over the processes, and the rounds of the wait.
module _ (fuel rounds : ℕ) where
  -- More processes than the fuel were listed at once, or it has slept as often as it could.
  abbrev pub IsExhausted : WinLog → Type 0
  IsExhausted log = (fuel < length (last_listing log)) ⊎ (rounds ≤ sleeps_in log)

  abbrev pub Fails : CloseError → WinLog → Type 0
  Fails out_of_fuel log = IsPolite log × IsExhausted log
  Fails e log = IsPolite log

  abbrev pub Ends : {A : Type 0} → (WinLog → A → Type 0) → WinLog → Closed A → Type 0
  Ends P log (done a) = P log a
  Ends P log (not_done e) = Fails e log

  -- A part, and what follows it.
  Always-then :
      {A B : Type 0} (P : WinLog → A → Type 0) (Q : WinLog → B → Type 0) (f : A → Win B)
      → ((log : WinLog) (a : A) → P log a → Always (Ends Q) log (f a))
      → (log : WinLog) (p : Win A) → Always (Ends P) log p
      → Always (Ends Q) log (p >>= f)
  Always-then P Q f h log (ret (done a)) x = h log a x
  Always-then P Q f h log (ret (not_done e)) x = x
  Always-then P Q f h log (call c k) x = λ r. Always-then P Q f h ((c, r) ∷ log) (k r) (x r)

module _ (fuel rounds : ℕ) (from_wide : List ℕ → Text) (decimal : ℕ → Text)
    (target display_name : Text) where
  abbrev is_target : ProcessEntry → Bool
  is_target entry =
      eq_ignore_ascii_case (utf16_name from_wide decimal target display_name entry.exe_file) target

  -- No process of the last listing is of the program.
  abbrev pub IsGone : WinLog → Type 0
  IsGone log = all (λ entry. not (is_target entry)) (last_listing log) ≡ true

  abbrev gone : WinLog → Bool
  gone log = all (λ entry. not (is_target entry)) (last_listing log)

  abbrev pushed : Option ProcessEntry → List ℕ → List ℕ
  pushed none ids = ids
  pushed (some entry) ids = push_id from_wide decimal target display_name entry ids

  found_any : (id : ℕ) (ids : List ℕ) → any (λ i. i == id) ids ≡ true → is_empty ids ≡ false
  found_any id [] h = cc
  found_any id (i ∷ ids) h = refl

  is_empty-append : (ids : List ℕ) (id : ℕ) → is_empty (ids ++ id ∷ []) ≡ false
  is_empty-append [] id = refl
  is_empty-append (i ∷ ids) id = refl

  is_empty-push_id :
      (entry : ProcessEntry) (ids : List ℕ)
      → is_empty (push_id from_wide decimal target display_name entry ids)
        ≡ (not (is_target entry) && is_empty ids)
  unfolding push_id
  is_empty-push_id entry ids = elim (Bool-cases (is_target entry)) [
    | inl e ↦ rw e (elim (Bool-cases (any (λ id. id == entry.process_id) ids)) [
      | inl there ↦ rw there (found_any entry.process_id ids there)
      | inr new ↦ rw new (is_empty-append ids entry.process_id)
    ])
    | inr e ↦ rw e refl
  ]

  abbrev Listed : Bool → ℕ → WinLog → List ℕ → Type 0
  Listed agreed sleeps log ids = (is_empty ids ≡ gone log) × Inv agreed sleeps log

  -- The processes listed and the fuel left, when one is at hand.
  abbrev IsCounted : Option ProcessEntry → ℕ → WinLog → Type 0
  IsCounted none left log = Unit {0}
  IsCounted (some entry) left log = length (last_listing log) + left ≡ fuel + 1

  collect_ids-Listed :
      (agreed : Bool) (sleeps left snapshot : ℕ) (ids : List ℕ) (r : Option ProcessEntry)
      (log : WinLog)
      → Listed agreed sleeps log (pushed r ids)
      → IsCounted r left log
      → Always
          (Ends fuel rounds (Listed agreed sleeps))
          log
          (collect_ids from_wide decimal target display_name left snapshot ids r)
  unfolding collect_ids
  collect_ids-Listed agreed sleeps left snapshot ids none log h count = λ _. h
  collect_ids-Listed agreed sleeps zero snapshot ids (some entry) log h count =
      (h.1.0, inl (omega arith))
  collect_ids-Listed agreed sleeps (suc left) snapshot ids (some entry) log h count = λ r.
      collect_ids-Listed agreed sleeps left snapshot (pushed (some entry) ids) r
        ((process_next snapshot, r) ∷ log) (next r) (counted r)
    where
      next :
          (r : Option ProcessEntry)
          → Listed agreed sleeps
              ((process_next snapshot, r) ∷ log)
              (pushed r (pushed (some entry) ids))
      next none = h
      next (some e) =
          (is_empty-push_id e (pushed (some entry) ids) ∙ ap (λ b. not (is_target e) && b) h.0, h.1)

      counted : (r : Option ProcessEntry) → IsCounted r left ((process_next snapshot, r) ∷ log)
      counted none = tt
      counted (some e) = omega arith

  process_ids-Listed :
      (agreed : Bool) (sleeps : ℕ) (log : WinLog)
      → Inv agreed sleeps log
      → Always
          (Ends fuel rounds (Listed agreed sleeps))
          log
          (process_ids from_wide decimal target display_name fuel)
  unfolding process_ids snapshot_ids
  process_ids-Listed agreed sleeps log h none = h.0
  process_ids-Listed agreed sleeps log h (some snapshot) =
      λ r. collect_ids-Listed agreed sleeps fuel snapshot [] r _ (first r) (counted r)
    where
      first :
          (r : Option ProcessEntry)
          → Listed agreed sleeps
              ((process_first snapshot, r) ∷ (create_snapshot, some snapshot) ∷ log)
              (pushed r [])
      first none = (refl, h)
      first (some e) = (is_empty-push_id e [], h)

      counted :
          (r : Option ProcessEntry)
          → IsCounted r fuel ((process_first snapshot, r) ∷ (create_snapshot, some snapshot) ∷ log)
      counted none = tt
      counted (some e) = omega arith

  terminate_process-Inv :
      (pid : ℕ) (log : WinLog)
      → Inv true 0 log
      → Always
          (Ends fuel rounds (λ log _. Inv true 0 log))
          log
          (terminate_process from_wide decimal target display_name pid)
  unfolding terminate_process
  terminate_process-Inv pid log h none = h
  terminate_process-Inv pid log h (some process) = λ _ _ _. ((h.1, h.0), h.1, h.2)

  terminate_all-Inv :
      (pids : List ℕ) (log : WinLog)
      → Inv true 0 log
      → Always
          (Ends fuel rounds (λ log _. Inv true 0 log))
          log
          (terminate_all from_wide decimal target display_name pids)
  unfolding terminate_all
  terminate_all-Inv [] log h = h
  terminate_all-Inv (pid ∷ pids) log h =
      Always-then fuel rounds (λ log _. Inv true 0 log) (λ log _. Inv true 0 log) _
        (λ log _ k. terminate_all-Inv pids log k) log
        (terminate_process from_wide decimal target display_name pid)
        (terminate_process-Inv pid log h)

  abbrev Cleared : WinLog → Unit {0} → Type 0
  Cleared log u = IsGone log × IsPolite log

  answered-Cleared :
      (time deadline : ℕ) (remaining : List ℕ) (again : Win Unit) (log : WinLog)
      → is_empty remaining ≡ gone log
      → (sleeps : ℕ) → Inv true sleeps log
      → ((log : WinLog) → Inv true (suc sleeps) log → Always (Ends fuel rounds Cleared) log again)
      → Always (Ends fuel rounds Cleared) log (
          if is_empty remaining
          then ret (done tt)
          else call now λ time.
            if leb deadline time
            then ret
                (not_done (still_running from_wide decimal target display_name (length remaining)))
            else call (sleep 100) λ _. again)
  answered-Cleared time deadline remaining again log empty sleeps h next =
      elim (Bool-cases (is_empty remaining)) [
        | inl e ↦ rw e (sym empty ∙ e, h.0)
        | inr e ↦ rw e (λ time. elim (Bool-cases (leb deadline time)) [
          | inl late ↦ rw late h.0
          | inr early ↦ rw early (λ _. next _ (h.0, h.1, ap suc h.2))
        ])
      ]

  await_exit-Cleared :
      (left sleeps deadline : ℕ) (log : WinLog)
      → left + sleeps ≡ rounds
      → Inv true sleeps log
      → Always
          (Ends fuel rounds Cleared)
          log
          (await_exit from_wide decimal target display_name fuel left deadline)
  unfolding await_exit
  await_exit-Cleared zero sleeps deadline log count h = let slept = h.2 in (h.0, inr (omega arith))
  await_exit-Cleared (suc left) sleeps deadline log count h =
      Always-then fuel rounds (Listed true sleeps) Cleared _
        (λ log remaining k.
          answered-Cleared 0 deadline remaining _ log k.0 sleeps k.1
            λ log h. await_exit-Cleared left (suc sleeps) deadline log (omega arith) h)
        log (process_ids from_wide decimal target display_name fuel)
        (process_ids-Listed true sleeps log h)

  agreed-Cleared :
      (pids : List ℕ) (answer : ℕ) (log : WinLog)
      → Inv (answer == id_ok) 0 log
      → Always
          (Ends fuel rounds Cleared)
          log
          (close_agreed from_wide decimal target display_name fuel rounds pids answer)
  unfolding close_agreed
  agreed-Cleared pids answer log h = elim (Bool-cases (answer == id_ok)) [
    | inl e ↦ rw e (
        Always-then fuel rounds (λ log _. Inv true 0 log) Cleared _
          (λ log _ k time. await_exit-Cleared rounds 0 _ _ (omega arith) k) log
          (terminate_all from_wide decimal target display_name pids)
          (terminate_all-Inv pids log (h.0, h.1 ∙ e, h.2)))
    | inr e ↦ rw e h.0
  ]

  Listed-Cleared :
      (pids : List ℕ) (log : WinLog)
      → Listed false 0 log pids
      → Always (Ends fuel rounds Cleared) log (
          if is_empty pids
          then ret (done tt)
          else call
              (message_box
                (prompt from_wide decimal target display_name)
                (ok_cancel + icon_warning))
              (close_agreed from_wide decimal target display_name fuel rounds pids))
  Listed-Cleared pids log h = elim (Bool-cases (is_empty pids)) [
    | inl e ↦ rw e (sym h.0 ∙ e, h.1.0)
    | inr e ↦ rw e (λ answer. agreed-Cleared pids answer _ (h.1.0, refl, h.1.2))
  ]

  close_if_running-Cleared :
      Always
        (Ends fuel rounds Cleared)
        []
        (close_if_running from_wide decimal target display_name fuel rounds)
  unfolding close_if_running
  close_if_running-Cleared =
      Always-then fuel rounds (Listed false 0) Cleared _ (λ log pids h. Listed-Cleared pids log h)
        [] (process_ids from_wide decimal target display_name fuel)
        (process_ids-Listed false 0 [] (tt, refl, refl))

  -- What the helper promises of a run.
  pub record IsCareful (log : WinLog) (code : ℕ) : Type 0 where
    pub polite : IsPolite log
    pub cleared : code ≡ 0 → IsGone log
    pub ended : code ≡ unfinished → IsExhausted fuel rounds log

  exit_code-IsCareful :
      (log : WinLog) (r : Closed Unit)
      → Ends fuel rounds Cleared log r
      → Always IsCareful log (exit_code from_wide decimal target display_name r)
  unfolding exit_code
  exit_code-IsCareful log (done u) h = record {
    polite = h.1;
    cleared = λ _. h.0;
    ended = λ e. absurd (omega arith);
  }
  exit_code-IsCareful log (not_done cancelled) h = record {
    polite = h;
    cleared = λ e. cc;
    ended = λ e. absurd (omega arith);
  }
  exit_code-IsCareful log (not_done out_of_fuel) h = record {
    polite = h.0;
    cleared = λ e. cc;
    ended = λ _. h.1;
  }
  exit_code-IsCareful log (not_done (failed_with reason)) h =
      λ _. record { polite = h; cleared = λ e. cc; ended = λ e. absurd (omega arith) }

  -- Whatever Windows and the user answer, on every run of the helper a process is terminated only after
  -- the user pressed OK in the question; the exit code 0, by which the installer goes on, is given only
  -- when no process of the last listing is of the program; and the fuel is missing only when more
  -- processes than it were listed at once, or when the wait has slept as often as the rounds given.
  pub run_helper-IsCareful :
      Always IsCareful [] (run_helper from_wide decimal target display_name fuel rounds)
  unfolding run_helper
  run_helper-IsCareful =
      Always-bind (Ends fuel rounds Cleared) IsCareful _ exit_code-IsCareful []
        (close_if_running from_wide decimal target display_name fuel rounds)
        close_if_running-Cleared
