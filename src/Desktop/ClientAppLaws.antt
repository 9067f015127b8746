-- ===== src/Desktop/ClientAppLaws.antt =====
-- src/desktop.rs, `ClientApp`: there is one agent at most, and it can be told to stop.
use rust_ssh.Prelude.{
  ℕ, suc, ◌+◌, ◌≡◌, refl, ap, ◌∙◌, sym, inl, inr, Bool, true, false, List, [], ◌∷◌, Option, none,
  some, if◌then◌else◌, Text, length, arith, Option-cases, Bool-cases, ◌&&◌, not, any, ◌==◌, subst,
}
use rust_ssh.Desktop.Checks.{Refusal, Checked, ok, error, ClientSettings, AgentConfig}
use rust_ssh.Desktop.ClientApp.{
  AgentStatus, agent_connecting, agent_connected, agent_stopped, agent_retrying, agent_failed,
  ViewportCommand, ClientApp, new, save, spawn, start_saved, start_config, start, stop,
  apply_agent_status, receive, poll_updates, join_finished, poll_agent, poll_signals, poll_close,
  poll_tray, Step, edits, saves, starts, stops, polls, polls_tray, IsReachable, begins, goes_on,
  drop_app, drop_thread, tell_dropped,
}

abbrev pub count : Option ℕ → ℕ
count none = 0
count (some thread) = 1

-- The channel to stop with, the thread and what was told, of one window. A thread that is awaited has
-- ended, so all threads that were started but the present one have.
abbrev pub IsLinked : Option ℕ → Option ℕ → ℕ → List ℕ → Type 0
IsLinked none none started signalled = Unit {0}
IsLinked (some k) none started signalled = ⊥
IsLinked (some k) (some thread) started signalled = (k ≡ thread) × (started ≡ suc thread)
IsLinked none (some thread) started signalled =
    (started ≡ suc thread) × (any (λ k. k == thread) signalled ≡ true)

pub record IsSingle (app : ClientApp) : Type 0 where
  pub linked : IsLinked app.stop_tx app.agent_thread app.started app.signalled
  pub ended : app.started ≡ length app.joined + count app.agent_thread
  pub listens : (thread : ℕ) → app.status_rx ≡ some thread → app.started ≡ suc thread

new-IsSingle : (settings : ClientSettings) → IsSingle (new settings)
unfolding new
new-IsSingle settings = record { linked = tt; ended = omega arith; listens = λ thread e. cc }

-- What leaves the channels and the threads alone.
relabel-IsSingle :
    (app app' : ClientApp)
    → app'.stop_tx ≡ app.stop_tx
    → app'.agent_thread ≡ app.agent_thread
    → app'.status_rx ≡ app.status_rx
    → app'.started ≡ app.started
    → app'.signalled ≡ app.signalled
    → app'.joined ≡ app.joined
    → IsSingle app
    → IsSingle app'
relabel-IsSingle app app' tx thread rx started signalled joined v = record {
  linked = rw (tx, thread, started, signalled) v.linked;
  ended = rw (started, joined, thread) v.ended;
  listens = λ k e. started ∙ v.listens k (sym rx ∙ e);
}

save-IsSingle : (saved : Option Text) (app : ClientApp) → IsSingle app → IsSingle (save saved app)
unfolding save
save-IsSingle none app v = relabel-IsSingle app _ refl refl refl refl refl refl v
save-IsSingle (some e) app v = relabel-IsSingle app _ refl refl refl refl refl refl v

spawn-IsSingle : (app : ClientApp) → app.agent_thread ≡ none → IsSingle app → IsSingle (spawn app)
unfolding spawn
spawn-IsSingle app e v = record {
  linked = (refl, refl);
  ended =
      let was : app.started ≡ length app.joined + count none =
        v.ended ∙ ap (λ t. length app.joined + count t) e in
      omega arith;
  listens = λ k h. ap suc (cc);
}

start-IsSingle :
    (show : Refusal → Text) (config : Checked AgentConfig) (saved : Option Text) (app : ClientApp)
    → IsSingle app
    → IsSingle (start show config saved app)
unfolding start start_config start_saved
start-IsSingle show config saved app v = elim (Option-cases app.agent_thread) [
  | inr (thread, e) ↦ rw (e, start) (relabel-IsSingle app _ refl refl refl refl refl refl v)
  | inl e ↦ rw (e, start) (begin e config saved)
]
  where
    begin :
        app.agent_thread ≡ none
        → (c : Checked AgentConfig) (s : Option Text) → IsSingle (start_config show s c app)
    begin e (error x) s = relabel-IsSingle app _ refl refl refl refl refl refl v
    begin e (ok c) (some x) = relabel-IsSingle app _ refl refl refl refl refl refl v
    begin e (ok c) none = spawn-IsSingle app e v

-- A channel that is used up has told its thread.
told-IsLinked :
    (k : ℕ) (thread : Option ℕ) (started : ℕ) (signalled : List ℕ)
    → IsLinked (some k) thread started signalled
    → IsLinked none thread started (k ∷ signalled)
told-IsLinked k none started signalled h = absurd h
told-IsLinked k (some thread) started signalled (same, last) = (last, ground arith)

stop-IsSingle : (app : ClientApp) → IsSingle app → IsSingle (stop app)
unfolding stop
stop-IsSingle app v = elim (Option-cases app.stop_tx) [
  | inl e ↦ rw (e, stop) (relabel-IsSingle app _ refl refl refl refl refl refl v)
  | inr (k, e) ↦
      rw (e, stop)
        (record {
          linked =
              told-IsLinked k app.agent_thread app.started app.signalled
                (subst (λ tx. IsLinked tx app.agent_thread app.started app.signalled) e v.linked);
          ended = v.ended;
          listens = v.listens;
        })
]

apply_agent_status-IsSingle :
    (update : AgentStatus) (app : ClientApp)
    → IsSingle app
    → IsSingle (apply_agent_status update app)
unfolding apply_agent_status
apply_agent_status-IsSingle agent_connecting app v =
    relabel-IsSingle app _ refl refl refl refl refl refl v
apply_agent_status-IsSingle agent_connected app v =
    relabel-IsSingle app _ refl refl refl refl refl refl v
apply_agent_status-IsSingle (agent_retrying reason) app v =
    relabel-IsSingle app _ refl refl refl refl refl refl v
apply_agent_status-IsSingle agent_stopped app v =
    relabel-IsSingle app _ refl refl refl refl refl refl v
apply_agent_status-IsSingle (agent_failed reason) app v =
    relabel-IsSingle app _ refl refl refl refl refl refl v

receive-IsSingle :
    (updates : List AgentStatus) (disconnected : Bool) (app : ClientApp)
    → IsSingle app
    → IsSingle (receive updates disconnected app)
unfolding receive
receive-IsSingle [] false app v = v
receive-IsSingle [] true app v = record { linked = v.linked; ended = v.ended; listens = λ k e. cc }
receive-IsSingle (update ∷ updates) disconnected app v =
    receive-IsSingle updates disconnected (apply_agent_status update app)
      (apply_agent_status-IsSingle update app v)

join_finished-IsSingle :
    (finished : Bool) (app : ClientApp) → IsSingle app → IsSingle (join_finished finished app)
unfolding join_finished
join_finished-IsSingle finished app v = elim (Option-cases app.agent_thread) [
  | inl e ↦ rw (e, join_finished) v
  | inr (thread, e) ↦ rw (e, join_finished) (joined finished thread e)
]
  where
    joined :
        (done : Bool) (thread : ℕ)
        → app.agent_thread ≡ some thread
        → IsSingle (
            if done
            then record app { agent_thread = none; joined = thread ∷ app.joined; stop_tx = none }
            else app)
    joined false thread e = v
    joined true thread e = record {
      linked = tt;
      ended =
          let was : app.started ≡ length app.joined + count (some thread) =
            v.ended ∙ ap (λ t. length app.joined + count t) e in
          omega arith;
      listens = v.listens;
    }

poll_agent-IsSingle :
    (updates : List AgentStatus) (disconnected finished : Bool) (app : ClientApp)
    → IsSingle app
    → IsSingle (poll_agent updates disconnected finished app)
unfolding poll_agent poll_updates
poll_agent-IsSingle updates disconnected finished app v =
    join_finished-IsSingle finished (poll_updates updates disconnected app)
      (elim (Option-cases app.status_rx) [
        | inl e ↦ rw (e, poll_updates) v
        | inr (k, e) ↦ rw (e, poll_updates) (receive-IsSingle updates disconnected app v)
      ])

poll_tray-IsSingle :
    (quit show close_requested tray : Bool) (app : ClientApp)
    → IsSingle app
    → IsSingle ((poll_tray quit show close_requested tray app).0)
unfolding poll_tray poll_signals poll_close
poll_tray-IsSingle quit show close_requested tray app v =
    closed (poll_signals quit show app) (signals quit show)
  where
    signals : (q s : Bool) → IsSingle ((poll_signals q s app).0)
    signals true s =
        stop-IsSingle (record app { allow_close = true })
          (relabel-IsSingle app _ refl refl refl refl refl refl v)
    signals false true = v
    signals false false = v

    closed :
        (r : ClientApp × List ViewportCommand)
        → IsSingle (r.0)
        → IsSingle ((poll_close close_requested tray r).0)
    closed (next, commands) w =
        elim (Bool-cases (close_requested && not next.allow_close && tray)) [
          | inl e ↦ rw e (relabel-IsSingle next _ refl refl refl refl refl refl w)
          | inr e ↦ rw e w
        ]

step-IsSingle : {app app' : ClientApp} → Step app app' → IsSingle app → IsSingle app'
step-IsSingle (edits app settings) v = relabel-IsSingle app _ refl refl refl refl refl refl v
step-IsSingle (saves app saved) v = save-IsSingle saved app v
step-IsSingle (starts app show config saved) v = start-IsSingle show config saved app v
step-IsSingle (stops app) v = stop-IsSingle app v
step-IsSingle (polls app updates disconnected finished) v =
    poll_agent-IsSingle updates disconnected finished app v
step-IsSingle (polls_tray app quit show close_requested tray) v =
    poll_tray-IsSingle quit show close_requested tray app v

-- In every state that a window can reach, whatever is clicked and whatever the agent does: all
-- threads that were started, but the present one, have ended and were awaited, so one agent runs at
-- most; a channel to stop with is that of the present thread; and a present thread without one has
-- been told to stop.
pub IsReachable-IsSingle :
    (settings : ClientSettings) (app : ClientApp) → IsReachable settings app → IsSingle app
IsReachable-IsSingle settings _ begins = new-IsSingle settings
IsReachable-IsSingle settings app (goes_on {app = before} reached step) =
    step-IsSingle step (IsReachable-IsSingle settings before reached)

drop_thread-signalled :
    (finished : Bool) (thread : Option ℕ) (app : ClientApp)
    → (drop_thread finished thread app).signalled ≡ app.signalled
unfolding drop_thread
drop_thread-signalled finished none app = refl
drop_thread-signalled true (some thread) app = refl
drop_thread-signalled false (some thread) app = refl

tell_dropped-signalled :
    (tx : Option ℕ) (app : ClientApp) (thread : ℕ)
    → IsLinked tx (some thread) app.started app.signalled
    → any (λ k. k == thread) (tell_dropped tx app).signalled ≡ true
unfolding tell_dropped
tell_dropped-signalled none app thread (last, told) = told
tell_dropped-signalled (some k) app thread (same, last) = ground arith

-- Dropping the window in a state that it can reach leaves no agent that was not told to stop: the
-- present thread, if there is one, is among those that were told.
pub drop_app-tells :
    (settings : ClientSettings) (app : ClientApp) (finished : Bool) (thread : ℕ)
    → IsReachable settings app
    → app.agent_thread ≡ some thread
    → any (λ k. k == thread) (drop_app finished app).signalled ≡ true
unfolding drop_app
drop_app-tells settings app finished thread reached e =
    let v = IsReachable-IsSingle settings app reached in
    let linked = subst (λ t. IsLinked app.stop_tx t app.started app.signalled) e v.linked in
    let told = tell_dropped app.stop_tx app in
    ap (any (λ k. k == thread)) (drop_thread-signalled finished told.agent_thread told)
    ∙ tell_dropped-signalled app.stop_tx app thread linked
