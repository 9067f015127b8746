-- ===== src/Installer.antt =====
-- src/bin/rust-ssh-installer-helper.rs: what the installer runs before it replaces a program: a running
-- one is closed, if the user agrees. The calls of Windows are left open.
pub mod Laws
mod Tests
use rust_ssh.Prelude
use rust_ssh.Prelude.{
  ℕ, zero, suc, ◌+◌, List, [], ◌∷◌, ◌++◌, Bool, true, false, not, ◌&&◌, ◌||◌, Option, none, some,
  ◌==◌, leb, any, length, is_empty, list_eq, if◌then◌else◌, Text, codes, Prog, ret, call, Event,
}

-- `entry` is `sz_exe_file` and the id of a process.
pub record ProcessEntry : Type 0 where
  pub process_id : ℕ
  pub exe_file : List ℕ

-- A handle that is no null pointer is a number. `has_first` and `has_next` are the answers of
-- `Process32FirstW` and `Process32NextW`, with the entry that they wrote.
pub data WinCall : Type 0 where
  create_snapshot now : WinCall
  process_first process_next close_handle : ℕ → WinCall
  open_process : ℕ → WinCall
  terminate : ℕ → WinCall
  wait_single : ℕ → ℕ → WinCall
  message_box : Text → ℕ → WinCall
  sleep : ℕ → WinCall

abbrev pub WinReply : WinCall → Type 0
WinReply create_snapshot = Option ℕ
WinReply now = ℕ
WinReply (process_first snapshot) = Option ProcessEntry
WinReply (process_next snapshot) = Option ProcessEntry
WinReply (close_handle handle) = Unit {0}
WinReply (open_process id) = Option ℕ
WinReply (terminate handle) = Unit {0}
WinReply (wait_single handle milliseconds) = Unit {0}
WinReply (message_box text kind) = ℕ
WinReply (sleep milliseconds) = Unit {0}

abbrev pub ok_cancel : ℕ
ok_cancel = 1

abbrev pub id_ok : ℕ
id_ok = 1

abbrev pub icon_warning : ℕ
icon_warning = 0x30

abbrev pub icon_error : ℕ
icon_error = 0x10

-- `Cancelled`, or `Failed`; `out_of_fuel` is the end of the model's loops.
pub data CloseError : Type 0 where
  cancelled out_of_fuel : CloseError
  failed_with : Text → CloseError

pub data Closed (A : Type 0) : Type 0 where
  done : A → Closed A
  not_done : CloseError → Closed A

abbrev pub Win : Type 0 → Type 0
Win A = Prog WinCall WinReply (Closed A)

abbrev pub WinLog : Type 0
WinLog = List (Event WinCall WinReply)

infixl 5 ◌>>=◌
abbrev pub ◌>>=◌ : {A B : Type 0} → Win A → (A → Win B) → Win B
ret (done a) >>= f = f a
ret (not_done e) >>= f = ret (not_done e)
call c k >>= f = call c (λ r. k r >>= f)

-- In place of an exit code, for a run without fuel left.
abbrev pub unfinished : ℕ
unfinished = 9999

-- The characters before the first zero.
unfoldable pub before_zero : List ℕ → List ℕ
before_zero [] = []
before_zero (c ∷ cs) = let rest = before_zero cs in if c == 0 then [] else c ∷ rest

unfoldable pub to_lower : ℕ → ℕ
to_lower c = if leb 0x41 c && leb c 0x5a then c + 32 else c

unfoldable pub eq_ignore_ascii_case : Text → Text → Bool
unfolding to_lower
eq_ignore_ascii_case [] [] = true
eq_ignore_ascii_case (a ∷ s) (b ∷ t) = to_lower a == to_lower b && eq_ignore_ascii_case s t
eq_ignore_ascii_case s t = false

-- `from_wide` is the decoding of UTF-16 with replacements; `decimal` prints a number.
module _ (from_wide : List ℕ → Text) (decimal : ℕ → Text) (target display_name : Text) where
  unfoldable pub utf16_name : List ℕ → Text
  unfolding before_zero
  utf16_name value = from_wide (before_zero value)

  -- The ids, with that of an entry if it is of the program and not there yet.
  unfoldable pub push_id : ProcessEntry → List ℕ → List ℕ
  push_id entry ids =
      if eq_ignore_ascii_case (utf16_name entry.exe_file) target
        && not (any (λ id. id == entry.process_id) ids)
      then ids ++ entry.process_id ∷ []
      else ids

  -- The loop over the entries of a snapshot.
  unfoldable pub collect_ids : ℕ → ℕ → List ℕ → Option ProcessEntry → Win (List ℕ)
  unfolding push_id
  collect_ids fuel snapshot ids none = call (close_handle snapshot) λ _. ret (done ids)
  collect_ids zero snapshot ids (some entry) = ret (not_done out_of_fuel)
  collect_ids (suc fuel) snapshot ids (some entry) =
      call (process_next snapshot) (collect_ids fuel snapshot (push_id entry ids))

  unfoldable pub snapshot_ids : ℕ → Option ℕ → Win (List ℕ)
  unfolding collect_ids
  snapshot_ids fuel none = ret (not_done (failed_with (codes "无法枚举 Windows 进程")))
  snapshot_ids fuel (some snapshot) = call (process_first snapshot) (collect_ids fuel snapshot [])

  unfoldable pub process_ids : ℕ → Win (List ℕ)
  unfolding snapshot_ids
  process_ids fuel = call create_snapshot (snapshot_ids fuel)

  abbrev pub terminated : Option ℕ → Win Unit
  terminated none = ret (done tt)
  terminated (some process) =
      call (terminate process)
        λ _. call (wait_single process 5000) λ _. call (close_handle process) λ _. ret (done tt)

  unfoldable pub terminate_process : ℕ → Win Unit
  terminate_process pid = call (open_process pid) terminated

  unfoldable pub terminate_all : List ℕ → Win Unit
  unfolding terminate_process
  terminate_all [] = ret (done tt)
  terminate_all (pid ∷ pids) = terminate_process pid >>= λ _. terminate_all pids

  abbrev pub still_running : ℕ → CloseError
  still_running count = failed_with (codes "仍有 " ++ decimal count ++ codes " 个进程未退出")

  -- The wait for the end of the processes, by the rounds that may still come.
  unfoldable pub await_exit : ℕ → ℕ → ℕ → Win Unit
  unfolding process_ids
  await_exit fuel zero deadline = ret (not_done out_of_fuel)
  await_exit fuel (suc rounds) deadline =
      let again = await_exit fuel rounds deadline in
      process_ids fuel >>= λ remaining.
      if is_empty remaining
      then ret (done tt)
      else call now λ time.
        if leb deadline time
        then ret (not_done (still_running (length remaining)))
        else call (sleep 100) λ _. again

  abbrev pub prompt : Text
  prompt = codes "检测到 " ++ display_name ++ codes " 正在运行。\n\n点击“确定”将强制关闭它并继续安装。\n点击“取消”退出安装，不会关闭程序。"

  -- What the user answers.
  unfoldable pub close_agreed : ℕ → ℕ → List ℕ → ℕ → Win Unit
  unfolding terminate_all await_exit
  close_agreed fuel rounds pids answer =
      let closing =
        terminate_all pids >>= λ _. call now λ time. await_exit fuel rounds (time + 5000) in
      if not (answer == id_ok) then ret (not_done cancelled) else closing

  unfoldable pub close_if_running : ℕ → ℕ → Win Unit
  unfolding process_ids close_agreed
  close_if_running fuel rounds = process_ids fuel >>= λ pids.
      if is_empty pids
      then ret (done tt)
      else call (message_box prompt (ok_cancel + icon_warning)) (close_agreed fuel rounds pids)

  -- The exit code of the helper, which tells the installer to go on or to stop.
  unfoldable pub exit_code : Closed Unit → Prog WinCall WinReply ℕ
  exit_code (done u) = ret 0
  exit_code (not_done cancelled) = ret 1602
  exit_code (not_done out_of_fuel) = ret unfinished
  exit_code (not_done (failed_with reason)) =
      call
        (message_box
          (codes "无法关闭 "
            ++ display_name
            ++ codes "。\n\n安装已取消，未替换程序文件。\n请手动退出后重新运行 MSI。\n\n原因："
            ++ reason)
          icon_error)
        λ _. ret 1603

  unfoldable pub run_helper : ℕ → ℕ → Prog WinCall WinReply ℕ
  unfolding close_if_running exit_code
  run_helper fuel rounds = Prelude.◌>>=◌ (close_if_running fuel rounds) exit_code

-- `main`, by its first argument.
abbrev pub program_of : Text → Option (Text × Text)
program_of argument =
    if list_eq argument (codes "client")
    then some (codes "rust-ssh-client.exe", codes "Rust-SSH-Client")
    else (if list_eq argument (codes "connect")
        then some (codes "rust-ssh-connect.exe", codes "Rust-SSH-Connect")
        else none)

module _ (from_wide : List ℕ → Text) (decimal : ℕ → Text) (fuel rounds : ℕ) where
  abbrev pub run_program : Option (Text × Text) → Prog WinCall WinReply ℕ
  run_program none = ret 1603
  run_program (some (target, display_name)) =
      run_helper from_wide decimal target display_name fuel rounds

  abbrev pub run_installer_helper : Text → Prog WinCall WinReply ℕ
  run_installer_helper argument = run_program (program_of argument)
