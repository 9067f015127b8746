-- ===== src/Desktop/ConnectAppLaws.antt =====
-- src/desktop.rs, `ConnectApp`: one search at a time, what is selected is listed, and no two devices
-- share an alias.
use rust_ssh.Prelude.{
  ℕ, suc, ◌+◌, ◌≡◌, refl, ap, ◌∙◌, sym, inl, inr, Bool, true, false, not, List, Option, none, some,
  if◌then◌else◌, Text, arith, Option-cases, Bool-cases, any, list_eq, is_empty, trim,
}
use rust_ssh.Pairing
use rust_ssh.Desktop.Checks.{Refusal, Checked, ok, error, from_pairing}
use rust_ssh.Desktop.ClientAppLaws.{count}
use rust_ssh.Desktop.AliasLaws.{changed, Changes, save_host_alias-Changes}
use rust_ssh.Desktop.ConnectApp.{
  ConnectSettings, ConnectApp, new, search, Received, found, not_found, empty, disconnected,
  refresh_saved, refresh_with, refresh, still_there, receive, poll_refresh, refresh_if, refresh_due,
  update, after_save, save_host_alias, finish_editor, Step, edits, updates, refreshes, selects,
  opens_editor, closes_editor, reports, IsReachable, begins, goes_on,
}

abbrev pub IsListed : Option Text → List Text → Type 0
IsListed none devices = Unit {0}
IsListed (some id) devices = any (λ item. list_eq item id) devices ≡ true

pub record IsConsistent (app : ConnectApp) : Type 0 where
  pub paired : app.refresh_rx ≡ app.refresh_cancel
  pub single : app.searches ≡ app.answered + count app.refresh_rx
  pub listed : IsListed app.selected_device app.devices

-- What leaves the search and the selection alone.
relabel-IsConsistent :
    (app app' : ConnectApp)
    → app'.refresh_rx ≡ app.refresh_rx
    → app'.refresh_cancel ≡ app.refresh_cancel
    → app'.searches ≡ app.searches
    → app'.answered ≡ app.answered
    → app'.selected_device ≡ app.selected_device
    → app'.devices ≡ app.devices
    → IsConsistent app
    → IsConsistent app'
relabel-IsConsistent app app' rx cancel searches answered selected devices v = record {
  paired = rx ∙ v.paired ∙ sym cancel;
  single = rw (searches, answered, rx) v.single;
  listed = rw (selected, devices) v.listed;
}

-- A search begins only where none is awaited.
search-IsConsistent :
    (app : ConnectApp) → app.refresh_rx ≡ none → IsConsistent app → IsConsistent (search app)
unfolding search
search-IsConsistent app e v = record {
  paired = refl;
  single =
      let was : app.searches ≡ app.answered + 0 = v.single ∙ ap (λ r. app.answered + count r) e in
      omega arith;
  listed = v.listed;
}

-- An answer ends it.
answered-IsConsistent :
    (app app' : ConnectApp) (k : ℕ)
    → app.refresh_rx ≡ some k
    → app'.refresh_rx ≡ none
    → app'.refresh_cancel ≡ none
    → app'.searches ≡ app.searches
    → app'.answered ≡ suc app.answered
    → IsListed app'.selected_device app'.devices
    → IsConsistent app
    → IsConsistent app'
answered-IsConsistent app app' k e rx cancel searches answered listed v = record {
  paired = rx ∙ sym cancel;
  single =
      let was : app.searches ≡ app.answered + 1 = v.single ∙ ap (λ r. app.answered + count r) e in
      rw (searches, answered, rx) (omega arith);
  listed = listed;
}

if-IsConsistent :
    (b : Bool) (x y : ConnectApp)
    → IsConsistent x
    → IsConsistent y
    → IsConsistent (if b then x else y)
if-IsConsistent true x y v w = v
if-IsConsistent false x y v w = w

after_save-IsConsistent :
    (saved : Option Text) (app : ConnectApp)
    → IsConsistent app
    → IsConsistent (after_save saved app)
after_save-IsConsistent none app v = v
after_save-IsConsistent (some e) app v = relabel-IsConsistent app _ refl refl refl refl refl refl v

save_host_alias-IsConsistent :
    (saved : Option Text) (device_id value : Text) (app : ConnectApp)
    → IsConsistent app
    → IsConsistent (save_host_alias saved device_id value app)
unfolding Changes
save_host_alias-IsConsistent saved device_id value app v =
    let (aliases, status, same, keeps) = save_host_alias-Changes saved device_id value app in
    rw same (relabel-IsConsistent app (changed aliases status app) refl refl refl refl refl refl v)

module _ (C : Pairing.Codecs) (show : Refusal → Text) (decimal : ℕ → Text) where
  still_there-IsListed :
      (devices : List Text) (selected : Option Text)
      → IsListed (still_there C show decimal devices selected) devices
  still_there-IsListed devices none = tt
  still_there-IsListed devices (some id) =
      elim (Bool-cases (any (λ item. list_eq item id) devices)) [ inl e ↦ rw e e | inr e ↦ rw e tt ]

  refresh-IsConsistent :
      (saved : Option Text) (app : ConnectApp)
      → IsConsistent app
      → IsConsistent (refresh C show decimal saved app)
  unfolding refresh refresh_with refresh_saved
  refresh-IsConsistent saved app v = elim (Option-cases app.refresh_rx) [
    | inr (k, e) ↦ rw (e, refresh) v
    | inl e ↦
        rw (e, refresh) (begin e (from_pairing (Pairing.decode C app.settings.pairing_code)) saved)
  ]
    where
      begin :
          app.refresh_rx ≡ none
          → (pairing : Checked Pairing.Config) (s : Option Text)
          → IsConsistent (refresh_with C show decimal s pairing app)
      begin e (error x) s = relabel-IsConsistent app _ refl refl refl refl refl refl v
      begin e (ok pairing) (some x) = relabel-IsConsistent app _ refl refl refl refl refl refl v
      begin e (ok pairing) none = search-IsConsistent app e v

  poll_refresh-IsConsistent :
      (now : ℕ) (received : Received) (app : ConnectApp)
      → IsConsistent app
      → IsConsistent (poll_refresh C show decimal now received app)
  unfolding poll_refresh receive
  poll_refresh-IsConsistent now received app v = elim (Option-cases app.refresh_rx) [
    | inl e ↦ rw (e, poll_refresh) v
    | inr (k, e) ↦ rw (e, poll_refresh) (come k e received)
  ]
    where
      come :
          (k : ℕ)
          → app.refresh_rx ≡ some k
          → (r : Received) → IsConsistent (receive C show decimal now r app)
      come k e (found devices) =
          answered-IsConsistent app _ k e refl refl refl refl
            (still_there-IsListed devices app.selected_device) v
      come k e (not_found x) = answered-IsConsistent app _ k e refl refl refl refl v.listed v
      come k e empty = v
      come k e disconnected = answered-IsConsistent app _ k e refl refl refl refl v.listed v

  refresh_if-IsConsistent :
      (wanted : Bool) (saved : Option Text) (app : ConnectApp)
      → IsConsistent app
      → IsConsistent (refresh_if C show decimal wanted saved app)
  refresh_if-IsConsistent true saved app v = refresh-IsConsistent saved app v
  refresh_if-IsConsistent false saved app v = v

  refresh_due-IsConsistent :
      (now : ℕ) (saved : Option Text) (app : ConnectApp)
      → IsConsistent app
      → IsConsistent (refresh_due C show decimal now saved app)
  unfolding refresh_due
  refresh_due-IsConsistent now saved app v =
      if-IsConsistent app.first_update _ _
        (refresh_if-IsConsistent (not (is_empty (trim app.settings.pairing_code))) saved
          (record app { first_update = false })
          (relabel-IsConsistent app _ refl refl refl refl refl refl v))
        (refresh_if-IsConsistent _ saved app v)

  finish_editor-IsConsistent :
      (saved : Option Text) (save cancel : Bool) (app : ConnectApp)
      → IsConsistent app
      → IsConsistent (finish_editor saved save cancel app)
  unfolding finish_editor
  finish_editor-IsConsistent saved save cancel app v = elim (Option-cases app.host_editor) [
    | inl e ↦ rw (e, finish_editor) v
    | inr (editor, e) ↦
        let closed : IsConsistent (record app { host_editor = none }) =
          relabel-IsConsistent app _ refl refl refl refl refl refl v in
        rw (e, finish_editor)
          (if-IsConsistent save _ _
            (save_host_alias-IsConsistent saved editor.device_id editor.value _ closed)
            (if-IsConsistent cancel _ _ closed v))
  ]

  step-IsConsistent :
      {app app' : ConnectApp} → Step C show decimal app app' → IsConsistent app → IsConsistent app'
  unfolding update
  step-IsConsistent (edits app code user) v =
      relabel-IsConsistent app _ refl refl refl refl refl refl v
  step-IsConsistent (updates app now received saved) v =
      refresh_due-IsConsistent now saved (poll_refresh C show decimal now received app)
        (poll_refresh-IsConsistent now received app v)
  step-IsConsistent (refreshes app saved) v = refresh-IsConsistent saved app v
  step-IsConsistent (selects app device e) v = record {
    paired = v.paired;
    single = v.single;
    listed = e;
  }
  step-IsConsistent (opens_editor app editor) v =
      relabel-IsConsistent app _ refl refl refl refl refl refl v
  step-IsConsistent (closes_editor app saved save cancel) v =
      finish_editor-IsConsistent saved save cancel app v
  step-IsConsistent (reports app status) v =
      relabel-IsConsistent app _ refl refl refl refl refl refl v

  -- In every state that the window of the controller can reach, whatever is clicked and whatever the
  -- searches bring, at most one search is not answered, its channel to give up is kept with it, and
  -- what is selected is among the devices shown.
  pub IsReachable-IsConsistent :
      (settings : ConnectSettings) (now : ℕ) (app : ConnectApp)
      → IsReachable C show decimal settings now app
      → IsConsistent app
  unfolding new
  IsReachable-IsConsistent settings now _ begins = record {
    paired = refl;
    single = omega arith;
    listed = tt;
  }
  IsReachable-IsConsistent settings now app (goes_on {app = before} reached step) =
      step-IsConsistent step (IsReachable-IsConsistent settings now before reached)
