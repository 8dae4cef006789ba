-- ===== src/Ws/Receiver/Life.antt =====
-- A receiver over its whole life: any sequence of calls after `Init`.
use ews.Common.{ℕ, ◌≡◌, ap, ◌∙◌, Bool, false, some, List, [], arith}
use ews.Codec.Decoder
use ews.Ws.Errors.{Role, Failure}
use ews.Ws.Receiver.{Receiver, failure, need_input, init, feed, preserve, next, payload_n, payload}
use ews.Ws.Receiver.Invariant.{IsValid, init-IsValid, feed-IsValid, preserve-IsValid}
use ews.Ws.Receiver.Progress.{next-IsValid, payload_n-IsValid}

-- One call, but for `Init`.
pub data Call : Receiver → Receiver → Type 0 where
  fed : (b : List ℕ) (r : Receiver) → Call r (feed b r)
  preserved : (r : Receiver) → Call r (preserve r)
  stepped : (r : Receiver) → Call r (next r).0
  read : (n : ℕ) (r : Receiver) → Call r (payload_n n r).0
  read_all : (r : Receiver) → Call r (payload r).0

-- Any number of calls.
pub data Calls (r : Receiver) : Receiver → Type 0 where
  start : Calls r r
  then_call : {s t : Receiver} → Calls r s → Call s t → Calls r t

Call-IsValid : (r s : Receiver) → Call r s → IsValid r → IsValid s
unfolding payload
Call-IsValid _ _ (fed b r) v = feed-IsValid b r v
Call-IsValid _ _ (preserved r) v = preserve-IsValid r v
Call-IsValid _ _ (stepped r) v = next-IsValid r v
Call-IsValid _ _ (read n r) v = payload_n-IsValid n r v
Call-IsValid _ _ (read_all r) v = payload_n-IsValid (Decoder.buffered r.dec) r v

-- Whatever calls follow `Init`, in whatever order and on whatever bytes, the receiver is well
-- formed: the control buffer keeps its 125 bytes and its length stays within them, the open
-- message is text or binary, the decoder and the receiver agree on what is left of the frame, and
-- after a failure or a close nothing is open and no input is kept.
pub Calls-IsValid :
    (role : Role) (compression : Bool) (r₀ r : Receiver)
    → Calls (init role compression r₀) r
    → IsValid r
Calls-IsValid role compression r₀ r start = init-IsValid role compression r₀
Calls-IsValid role compression r₀ r (then_call {s} calls call) =
    Call-IsValid s r call (Calls-IsValid role compression r₀ s calls)

next-failed :
    (r : Receiver) (f : Failure) → r.failed ≡ some f → next r ≡ (r, need_input, some (failure f))
unfolding next
next-failed r f e = simp (e, next)

payload_n-failed :
    (n : ℕ) (r : Receiver) (f : Failure)
    → r.failed ≡ some f
    → payload_n n r ≡ (r, [], false, some f)
unfolding payload_n
payload_n-failed n r f e = simp (e, payload_n)

Call-failed : (r s : Receiver) (f : Failure) → Call r s → r.failed ≡ some f → s.failed ≡ some f
unfolding feed preserve payload
Call-failed _ _ f (fed b r) e = ground arith
Call-failed _ _ f (preserved r) e = e
Call-failed _ _ f (stepped r) e = ap (λ x. x.0.failed) (next-failed r f e) ∙ e
Call-failed _ _ f (read n r) e = ap (λ x. x.0.failed) (payload_n-failed n r f e) ∙ e
Call-failed _ _ f (read_all r) e =
    ap (λ x. x.0.failed) (payload_n-failed (Decoder.buffered r.dec) r f e) ∙ e

-- A failure is final: after any further calls, input included, the same failure is kept, `Next`
-- returns it and changes nothing, and `PayloadN` returns it with no bytes.
pub Calls-failed :
    (r s : Receiver) (f : Failure) (n : ℕ)
    → r.failed ≡ some f
    → Calls r s
    → (s.failed ≡ some f)
      × (next s ≡ (s, need_input, some (failure f)))
      × (payload_n n s ≡ (s, [], false, some f))
Calls-failed r s f n e start = (e, next-failed r f e, payload_n-failed n r f e)
Calls-failed r s f n e (then_call {s = t} calls call) =
    let (kept, a, b) = Calls-failed r t f n e calls in
    let e' = Call-failed t s f call kept in (e', next-failed s f e', payload_n-failed n s f e')
