-- ===== src/Ws/Reader/Carrying.antt =====
-- A frame whose payload is still to come, and its unmasking in pieces: the state between two calls
-- of `PayloadN` in ws/receiver.go.
use ews.Common.{
  ℕ, ◌-◌, ◌≤◌, ◌≡◌, refl, sym, ap, ◌∙◌, Bool, true, false, ◌&&◌, none, List, [], ◌++◌, arith,
  length, take, drop, min, take-append-drop, take-append_left, take-length-append,
  drop-length-append, drop-append_left, length-take, length-zero, if◌then◌else◌, ◌==◌,
}
use ews.Common.Words.{IsBytes}
use ews.Codec.Mask.{MaskKey, mask}
use ews.Codec.Mask.Reference.{IsKey}
use ews.Codec.Mask.Chunks.{mask-append}
use ews.Codec.Mask.Size.{length-mask}
use ews.Codec.Header.{is_final}
use ews.Codec.Decoder
use ews.Ws.Receiver.{Receiver, consumed}
use ews.Ws.Receiver.Frames.{finish_frame-final}
use ews.Ws.Reader.{Reader}
use ews.Ws.Reader.Flow.{IsSmooth, stream}

-- Unmasking at the receiver's place in the frame.
abbrev pub plain_of : Receiver → List ℕ → List ℕ
plain_of r s = if r.masked_frame then (mask s r.frame_key r.mask_offset).0 else s

-- In the open frame of `c` the payload `p` is still to come, and then `rest`. The frame is final or
-- not, in a message of the opcode `m` that is not compressed.
pub record Carries {W S : Type 0} (c : Reader W S) (final : Bool) (m : ℕ) (p rest : List ℕ)
    : Type 0 where
  pub body : List ℕ
  pub flows : stream c ≡ body ++ rest
  pub plain : plain_of c.rx body ≡ p
  pub bytes : IsBytes body
  pub key : c.rx.masked_frame ≡ true → IsKey c.rx.frame_key
  pub left : c.rx.remaining ≡ length body
  pub dec_left : c.rx.dec.remaining ≡ length body
  pub message : c.rx.message_opcode ≡ (if length body == 0 && final then 0 else m)
  pub last : is_final c.rx.header ≡ final
  pub not_compressed : c.rx.compressed ≡ false
  pub not_failed : c.rx.failed ≡ none
  pub not_closed : c.rx.close_received ≡ false
  pub no_control : c.rx.control_open ≡ false
  pub smooth : IsSmooth c.arrivals
  pub room : 1 ≤ c.buf

pub plain-append :
    (b : Bool) (k : MaskKey) (o : ℕ) (xs ys : List ℕ)
    → (b ≡ true → IsKey k)
    → IsBytes xs
    → IsBytes ys
    → (if b then (mask (xs ++ ys) k o).0 else xs ++ ys)
      ≡ (if b then (mask xs k o).0 else xs)
        ++ (if b then (mask ys k (if b then (mask xs k o).1 else o)).0 else ys)
plain-append true k o xs ys key bx by = sym (mask-append xs ys k o (key refl) bx by).0
plain-append false k o xs ys key bx by = refl

pub length-plain :
    (b : Bool) (k : MaskKey) (o : ℕ) (s : List ℕ)
    → length (if b then (mask s k o).0 else s) ≡ length s
length-plain true k o s = (length-mask s k o).0
length-plain false k o s = refl

-- Two ways to cut the same bytes.
pub cut_lem :
    (a x b y : List ℕ)
    → a ++ x ≡ b ++ y
    → length a ≤ length b
    → (b ≡ a ++ drop (length a) b) × (x ≡ drop (length a) b ++ y)
cut_lem a x b y e h =
    let n = length a in
    (
      sym (take-append-drop n b)
          ∙ ap (λ t. t ++ drop n b)
              (sym (take-append_left n b y h)
                ∙ ap (λ t. take n t) (sym e)
                ∙ take-length-append a x),
      sym (drop-length-append a x) ∙ ap (λ t. drop n t) e ∙ drop-append_left n b y h,
    )

pub consumed-after :
    (r : Receiver) (chunk : List ℕ) (done : Bool)
    → (length chunk == 0) ≡ false
    → consumed chunk done r ≡ (
      record r {
        mask_offset =
            if r.masked_frame then (mask chunk r.frame_key r.mask_offset).1 else r.mask_offset;
        remaining = r.remaining - length chunk;
        message_opcode = if done && is_final r.header then 0 else r.message_opcode;
      },
      plain_of r chunk,
      done,
      none,
    )
unfolding consumed
consumed-after r chunk true e =
    let q : Receiver = record r {
      mask_offset =
          if r.masked_frame then (mask chunk r.frame_key r.mask_offset).1 else r.mask_offset;
      remaining = r.remaining - length chunk;
    } in
    rw e (ap (λ t. (t, plain_of r chunk, true, none)) (finish_frame-final q))
consumed-after r chunk false e = rw e refl

pub consumed-nothing : (r : Receiver) → consumed [] false r ≡ (r, [], false, none)
unfolding consumed
consumed-nothing r =
    ap (λ s. (r, s, false, none))
      (length-zero _ (length-plain r.masked_frame r.frame_key r.mask_offset []))

pub payload_chunk :
    (d : Decoder.Decoder)
    → (d.remaining == 0) ≡ false
    → length (Decoder.payload_n (length d.pending) d).1 ≡ min (length d.pending) d.remaining
unfolding Decoder.payload_n
payload_chunk d e =
    ground (
      arith,
      length-take {0} (min (min (length d.pending) (length d.pending)) d.remaining) d.pending,
    )
