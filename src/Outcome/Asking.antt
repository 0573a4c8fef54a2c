-- ===== src/Outcome/Asking.antt =====
-- The shape that all request methods share: a ResultChannel, sendData, the wait.
use serf_cpp.Prelude.{
  ℕ, suc, ◌+◌, ◌%◌, ◌^◌, Bool, true, false, Option, none, some, List, [], ◌∷◌, ◌++◌, ◌≡◌, fun_ext,
  arith,
}
use serf_cpp.Msgpack.{Msgpack}
use serf_cpp.Exec.{ok, ◌>>=◌}
use serf_cpp.Route.Message.{touch-known}
use serf_cpp.SeqMap.{pointer-assign, SeqMap, assign, erase, pointer}
use serf_cpp.Channel.{Channel, World, Reply, ResultChannel, new_result, result}
use serf_cpp.Channel.Memory.{M, allocate, free, load, update}
use serf_cpp.IoThread.{remove_channel}
use serf_cpp.IoThread.Wait.{Env, with_result, await_reply, consume, load_result}
use serf_cpp.Outcome.{unsent, forgotten}

-- memory that was not in use is again as before, once a channel there has come and gone
pub update-update :
    (f : ℕ → Option Channel) (p : ℕ) (c : Option Channel)
    → f p ≡ none
    → update (update f p c) p none ≡ f
update-update f p c e = fun_ext (λ q. ground arith)

-- registering and deregistering a request
pub erase-assign : (k : ℕ) (p : Option ℕ) (s : SeqMap) → erase k (assign k p s) ≡ erase k s
unfolding erase assign
erase-assign k p [] = ground arith
erase-assign k p ((j, q) ∷ s) = ground (arith, erase-assign k p s)

module _ ⦃m : Msgpack⦄ where
  -- the world in which the request is sent
  abbrev pub ready : World → Reply → World
  ready w r = record w {
    memory = update w.memory w.next_address (some (result (new_result r)));
    next_address = suc w.next_address;
  }

  -- the world after send() took the message
  abbrev pub sent_off : World → Reply → List m.Object → World
  sent_off w r message = record (ready w r) {
    seq = (w.seq + 1) % 2 ^ 64;
    wire = w.wire ++ message;
    channels = assign w.seq (some w.next_address) w.channels;
  }

  -- removeChannel of a request, whose channel stays with the caller
  remove_channel-request :
      (w : World) (seq p : ℕ) (c : ResultChannel)
      → pointer seq w.channels ≡ some p
      → w.memory p ≡ some (result c)
      → remove_channel seq w ≡ (ok tt, record w { channels = erase seq w.channels })
  unfolding remove_channel load ◌>>=◌
  remove_channel-request w seq p c b e = ground (arith, touch-known seq p w.channels b)

  pub load_result-known :
      (w : World) (p : ℕ) (c : ResultChannel)
      → w.memory p ≡ some (result c)
      → load_result p w ≡ (ok c, w)
  unfolding load_result load ◌>>=◌
  load_result-known w p c e = rw (e, load)

module _ ⦃m : Msgpack⦄ {A : Type 0} where
  abbrev pub asking :
      Reply → (ℕ → M (Bool × ℕ)) → (ℕ → A) → (ℕ → A) → (ResultChannel → ℕ → M A) → Env → M A
  asking r send failed timed_out reply env = with_result r λ channel. do
    sent ← send channel
    await_reply channel env sent (failed sent.1) (timed_out sent.1) (λ c. reply c sent.1)

  pub asking-unsent :
      (r : Reply) (send : ℕ → M (Bool × ℕ)) (failed timed_out : ℕ → A)
      (reply : ResultChannel → ℕ → M A) (env : Env) (w : World) (old : ℕ)
      → w.memory w.next_address ≡ none
      → send w.next_address (ready w r)
        ≡ (ok (false, old), record (ready w r) { seq = (w.seq + 1) % 2 ^ 64 })
      → asking r send failed timed_out reply env w ≡ (ok (failed old), unsent w)
  unfolding with_result allocate free ◌>>=◌ await_reply
  asking-unsent r send failed timed_out reply env w old fresh e = rw e (λ i. (
    ok (failed old),
    record (unsent w) {
      memory = update-update w.memory w.next_address (some (result (new_result r))) fresh i;
    },
  ))

  pub asking-unanswered :
      (r : Reply) (send : ℕ → M (Bool × ℕ)) (failed timed_out : ℕ → A)
      (reply : ResultChannel → ℕ → M A) (env : Env) (w : World) (message : List m.Object)
      → w.memory w.next_address ≡ none
      → send w.next_address (ready w r) ≡ (ok (true, w.seq), sent_off w r message)
      → env.arrivals ≡ []
      → asking r send failed timed_out reply env w ≡ (ok (timed_out w.seq), forgotten w message)
  unfolding with_result allocate free ◌>>=◌ await_reply consume
  asking-unanswered r send failed timed_out reply env w message fresh e quiet =
      rw
        (
          e,
          quiet,
          load_result-known v p (new_result r) there,
          remove_channel-request v w.seq p (new_result r) registered there,
        )
        (λ i. (
          ok (timed_out w.seq),
          record (forgotten w message) {
            memory = update-update w.memory p (some (result (new_result r))) fresh i;
            channels = erase-assign w.seq (some p) w.channels i;
          },
        ))
    where
      v : World
      v = sent_off w r message

      p : ℕ
      p = w.next_address

      there : v.memory p ≡ some (result (new_result r))
      there = ground arith

      registered : pointer w.seq v.channels ≡ some p
      registered = ground (arith, pointer-assign w.seq w.seq (some p) w.channels)
