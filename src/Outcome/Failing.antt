-- ===== src/Outcome/Failing.antt =====
-- The two ways in which a request fails, for the shape that all request methods share.
use serf_cpp.Prelude.{ℕ, Bool, true, false, ◌&&◌, List, [], ◌≡◌, arith}
use serf_cpp.Msgpack.{Msgpack}
use serf_cpp.Exec.{ok, ◌>>=◌}
use serf_cpp.Channel.{World, Reply, ResultChannel}
use serf_cpp.Channel.Memory.{M}
use serf_cpp.IoThread.{connected}
use serf_cpp.IoThread.Wait.{Env}
use serf_cpp.Client.{SerfResponse, failure, timeout}
use serf_cpp.Client.Session.{Output, no_output, returning, response, storing}
use serf_cpp.Outcome.{unsent, forgotten}
use serf_cpp.Outcome.Asking.{asking, ready, asking-unsent, asking-unanswered}
use serf_cpp.Outcome.Sending.{sent_or_not}
use serf_cpp.Safety.Invariant.{IsSafe}

module _ ⦃m : Msgpack⦄ where
  open m use {Object}

  -- a way to send a message, which depends on the sequence number
  abbrev pub Sends : Env → (ℕ → M (Bool × ℕ)) → (ℕ → List Object) → ℕ → Type 0
  Sends env send message old =
      (w : World) (channel : ℕ) (b : Bool)
      → (connected w.socket && env.accepts) ≡ b
      → send channel w ≡ sent_or_not b w (message w.seq) channel old

  -- both ways in which a request fails, with what the caller's variable holds after each
  pub record Fails (action : M (SerfResponse × Output)) (env : Env) (message : ℕ → List Object)
      (given : Output) (left : ℕ → Output) : Type 0 where
    pub refused :
        (w : World)
        → IsSafe w
        → (connected w.socket && env.accepts) ≡ false
        → action w ≡ (ok (failure, given), unsent w)
    pub expired :
        (w : World)
        → IsSafe w
        → (connected w.socket && env.accepts) ≡ true
        → env.arrivals ≡ []
        → action w ≡ (ok (timeout, left w.seq), forgotten w (message w.seq))

  pub asking-Fails :
      (r : Reply) (send : ℕ → M (Bool × ℕ)) (reply : ResultChannel → ℕ → M SerfResponse) (env : Env)
      (message : ℕ → List Object) (old : ℕ)
      → Sends env send message old
      → Fails
          (returning response (asking r send (λ _. failure) (λ _. timeout) reply env))
          env
          message
          no_output
          (λ _. no_output)
  unfolding ◌>>=◌
  asking-Fails r send reply env message old sends = record {
    refused = λ w h e. rw (
        asking-unsent r send (λ _. failure) (λ _. timeout) reply env w old
          (h.fresh w.next_address (omega arith)) (sends (ready w r) w.next_address false e));
    expired = λ w h e quiet. rw (
        asking-unanswered r send (λ _. failure) (λ _. timeout) reply env w (message w.seq)
          (h.fresh w.next_address (omega arith)) (sends (ready w r) w.next_address true e) quiet);
  }

  -- the methods that have a variable of the caller; f tells its value from the seq that sendData left
  pub asking_pair-Fails :
      {B : Type 0} (out : B → Output) (f : ℕ → B) (r : Reply) (send : ℕ → M (Bool × ℕ))
      (reply : ResultChannel → ℕ → M (SerfResponse × B)) (env : Env) (message : ℕ → List Object)
      (old : ℕ)
      → Sends env send message old
      → Fails
          (returning
            (storing out)
            (asking r send (λ s. (failure, f s)) (λ s. (timeout, f s)) reply env))
          env
          message
          (out (f old))
          (λ s. out (f s))
  unfolding ◌>>=◌
  asking_pair-Fails out f r send reply env message old sends = record {
    refused = λ w h e. rw (
        asking-unsent r send (λ s. (failure, f s)) (λ s. (timeout, f s)) reply env w old
          (h.fresh w.next_address (omega arith)) (sends (ready w r) w.next_address false e));
    expired = λ w h e quiet. rw (
        asking-unanswered r send (λ s. (failure, f s)) (λ s. (timeout, f s)) reply env w
          (message w.seq) (h.fresh w.next_address (omega arith))
          (sends (ready w r) w.next_address true e) quiet);
  }
