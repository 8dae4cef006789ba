-- ===== src/Codec/Tests.antt =====
-- Runs of the codec on concrete frames.
use ews.Common.{ℕ, ◌≡◌, refl, inl, true, false, none, some, List, [], ◌∷◌, ◌++◌, arith, length}
use ews.Common.Words.{IsBytes}
use ews.Codec.Mask.{MaskKey, key_bytes, mask, mask_swar, mask_generic, mask_simd}
use ews.Codec.Mask.Reference.{IsKey, mask_bytes}
use ews.Codec.Mask.Builds.{mask_swar-eq-mask_bytes, mask_generic-eq-mask_bytes}
use ews.Codec.Mask.Simd.{mask_simd-eq-mask_bytes}
use ews.Codec.Mask.Chunks.{mask-append, mask-mask}
use ews.Codec.Opcode.{text, is_data}
use ews.Codec.Header.{
  Header, zero_header, bytes, payload_len, is_final, rsv1, rsv2, rsv3, opcode, masked, mask_key,
}
use ews.Codec.Decoder.{Decoder, next_header_into, header_size, bad_length}
use ews.Codec.Decoder
use ews.Codec.Decoder.Feeding.{next_header_into-feed}
use ews.Codec.Encoder.{Encoder, check_frame, frame_header, set_rsv1, header_bytes, payload_bytes}
use ews.Codec.Encoder
use ews.Codec.Wire.{wire_header, frame_header-wire}
use ews.Codec.RoundTrip.{decode-encode, unmask}

abbrev hello : List ℕ
hello = 72 ∷ 101 ∷ 108 ∷ 108 ∷ 111 ∷ []

abbrev key : MaskKey
key = record { k0 = 55; k1 = 250; k2 = 33; k3 = 61 }

hello-IsBytes : IsBytes hello
hello-IsBytes = ground arith

key-IsKey : IsKey key
key-IsKey = ground arith

mask_swar-eq-mask_bytes_example : mask_swar hello key 1 ≡ mask_bytes key 1 hello
mask_swar-eq-mask_bytes_example = mask_swar-eq-mask_bytes hello key 1 key-IsKey hello-IsBytes

mask_generic-eq-mask_bytes_example : mask_generic hello key 1 ≡ mask_bytes key 1 hello
mask_generic-eq-mask_bytes_example = mask_generic-eq-mask_bytes hello key 1 key-IsKey hello-IsBytes

mask_simd-eq-mask_bytes_example : mask_simd hello key 1 ≡ mask_bytes key 1 hello
mask_simd-eq-mask_bytes_example = mask_simd-eq-mask_bytes hello key 1 key-IsKey hello-IsBytes

mask-append_example :
    ((mask hello key 1).0 ++ (mask hello key (mask hello key 1).1).0
      ≡ (mask (hello ++ hello) key 1).0)
    × ((mask hello key (mask hello key 1).1).1 ≡ (mask (hello ++ hello) key 1).1)
mask-append_example = mask-append hello hello key 1 key-IsKey hello-IsBytes hello-IsBytes

mask-mask_example : (mask (mask hello key 1).0 key 1).0 ≡ hello
mask-mask_example = mask-mask hello key 1 key-IsKey hello-IsBytes

-- A masked text frame, and the first byte of another frame.
abbrev wire : List ℕ
wire = 129 ∷ 133 ∷ 55 ∷ 250 ∷ 33 ∷ 61 ∷ 127 ∷ 159 ∷ 77 ∷ 81 ∷ 88 ∷ 129 ∷ []

abbrev reader : Decoder
reader = record { pending = wire; scratch = []; remaining = 0 }

found : (next_header_into reader zero_header).2 ≡ true
unfolding next_header_into bytes payload_len header_size bad_length
found = refl

next_header_into-feed_example :
    let r = next_header_into reader zero_header in
    let r' = next_header_into (Decoder.feed hello reader) zero_header in
    (r'.1 ≡ r.1)
    × (r'.2 ≡ r.2)
    × (r'.3 ≡ r.3)
    × (r'.0.pending ≡ r.0.pending ++ hello)
    × (r'.0.remaining ≡ r.0.remaining)
next_header_into-feed_example = next_header_into-feed reader zero_header hello (inl found)

frame_header-wire_example :
    bytes (frame_header true text 5 (some key)) ≡ wire_header true false text 5 (some key)
frame_header-wire_example = frame_header-wire true text 5 (some key) (omega arith)

abbrev blank : Encoder
blank = record { h = zero_header; payload = []; scratch = [] }

abbrev encoded : Encoder
encoded = (Encoder.encode true text hello (some key) blank).0

encoded-ok : Encoder.encode true text hello (some key) blank ≡ (encoded, none)
unfolding Encoder.encode check_frame is_data
encoded-ok = refl

abbrev input : Decoder
input = record {
  pending = header_bytes encoded ++ (payload_bytes encoded ++ hello);
  scratch = [];
  remaining = 0;
}

decode-encode_example :
    let d' : Decoder = record {
      pending = payload_bytes encoded ++ hello;
      scratch = [];
      remaining = 5;
    } in
    (h' : Header) × (next_header_into input zero_header ≡ (d', h', true, none))
    × (is_final h' ≡ true)
    × (opcode h' ≡ text)
    × (rsv1 h' ≡ false)
    × (rsv2 h' ≡ false)
    × (rsv3 h' ≡ false)
    × (payload_len h' ≡ 5)
    × (masked h' ≡ true)
    × (mask_key h' ≡ some (key_bytes key))
    × (Decoder.payload_n 5 d'
        ≡ (record d' { pending = hello; remaining = 0 }, payload_bytes encoded, true))
    × (length (payload_bytes encoded) ≡ 5)
    × (unmask (some key) (payload_bytes encoded) ≡ hello)
decode-encode_example =
    decode-encode true text hello (some key) blank encoded input zero_header hello encoded-ok
      hello-IsBytes key-IsKey (omega arith) refl refl
