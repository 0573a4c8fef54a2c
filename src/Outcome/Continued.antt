-- ===== src/Outcome/Continued.antt =====
-- An answered request without a body, up to what it does with its reply.
use serf_cpp.Prelude.{ℕ, Bool, true, false, some, none, List, ◌∷◌, ◌≡◌, arith}
use serf_cpp.Msgpack.{Msgpack}
use serf_cpp.Exec.{ok, ◌>>=◌}
use serf_cpp.SeqMap.{pointer, pointer-assign}
use serf_cpp.Msg.Headers.{ResponseHeader}
use serf_cpp.Channel.{World, ResultChannel, new_result, result}
use serf_cpp.Channel.Memory.{M, allocate, free, update}
use serf_cpp.IoThread.Rpc.{Batch}
use serf_cpp.IoThread.Wait.{Env, with_result, await_reply}
use serf_cpp.Outcome.Asking.{asking, ready, sent_off, load_result-known}
use serf_cpp.Outcome.Answer.{replied, after_reply, update-at}
use serf_cpp.Channel.{nothing}
use serf_cpp.Outcome.Reply.{Brings, consume-answer}

module _ ⦃m : Msgpack⦄ where
  -- the state in which an answered request looks at its reply
  abbrev pub in_reply : World → List m.Object → ResponseHeader → m.Unpacker → World
  in_reply w message hdr y = after_reply (sent_off w nothing message) w.next_address hdr nothing y

module _ ⦃m : Msgpack⦄ {A : Type 0} where
  -- The request goes on with its reply, and then its channel is gone.
  pub asking-continued :
      (send : ℕ → M (Bool × ℕ)) (failed timed_out : ℕ → A) (reply : ResultChannel → ℕ → M A)
      (env : Env) (w : World) (message : List m.Object) (b : Batch) (bs : List Batch)
      (hdr : ResponseHeader) (y : m.Unpacker) (a : A) (u : World)
      → w.running ≡ true
      → w.shutdown ≡ false
      → send w.next_address (ready w nothing) ≡ (ok (true, w.seq), sent_off w nothing message)
      → env.arrivals ≡ b ∷ bs
      → Brings w.unpacker b w.seq hdr nothing nothing y
      → reply (replied hdr nothing) w.seq (in_reply w message hdr y) ≡ (ok a, u)
      → asking nothing send failed timed_out reply env w
        ≡ (ok a, record u { memory = update u.memory w.next_address none })
  unfolding with_result allocate free ◌>>=◌ await_reply
  asking-continued send failed timed_out reply env w message b bs hdr y a u runs on e arrives h
        returns =
      rw (
        e,
        arrives,
        consume-answer v p w.seq b bs hdr nothing nothing y runs on registered there h,
        load_result-known (after_reply v p hdr nothing y) p (replied hdr nothing)
            (update-at v.memory p (some (result (replied hdr nothing)))),
        returns,
      )
    where
      p : ℕ
      p = w.next_address

      v : World
      v = sent_off w nothing message

      there : v.memory p ≡ some (result (new_result nothing))
      there = update-at w.memory p (some (result (new_result nothing)))

      registered : pointer w.seq v.channels ≡ some p
      registered = ground (arith, pointer-assign w.seq w.seq (some p) w.channels)
