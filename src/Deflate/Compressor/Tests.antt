-- ===== src/Deflate/Compressor/Tests.antt =====
-- A message on one window, a payload that another path records in it, and the next message.
use ews.Common.{
  ℕ, ◌==◌, if◌then◌else◌, ◌≢◌, ◌*◌, ◌≡◌, refl, max, Bool, true, false, none, some, List, [], ◌∷◌,
  ◌++◌, arith,
}
use ews.Deflate.Window.{size, dict, add, remember, append, enlarge, compact}
use ews.Deflate.Window.History.{last}
use ews.Deflate.Compressor.{
  FlateWriter, Compressor, Store, prime, compress_chunk, encode_chunk, finish_chunk, is_stale,
  reachable,
}
use ews.Deflate.Compressor.History.{Refers, MayChunk}
use ews.Deflate.Compressor.Stream.{Steps, start, then_step, chunk, added, prime_lem}

-- A writer that stores, with the marker of a flush; its state is what it can refer to.
abbrev storing : FlateWriter
storing = record {
  State = List ℕ;
  reset_dict = λ d s. d;
  write = λ p s. (s ++ p, p, false);
  flush = λ s. (s, 0 ∷ 0 ∷ 255 ∷ 255 ∷ [], false);
}

storing-Refers : Refers storing
storing-Refers = record {
  history = λ s. s;
  after_reset_dict = λ d s. refl;
  after_write = λ p s. refl;
  after_flush = λ s. refl;
}

abbrev double : ℕ → ℕ → ℕ
double cap n = max (2 * cap) n

abbrev new_compressor : Compressor (List ℕ)
new_compressor = record {
  writer = [];
  output = [];
  window = 256;
  attached = none;
  gen = 0;
  mid = false;
}

abbrev windows : Store
windows = λ i. record { bits = 8; buf = []; cap = 0; gen = 0 }

abbrev once : Compressor (List ℕ) × Store
once = (compress_chunk storing double (1 ∷ 2 ∷ []) (some 0) true windows new_compressor).0

abbrev then_added : Store
then_added = λ j. if j == 0 then add double (3 ∷ []) (once.1 0) else once.1 j

large_enough : MayChunk storing storing-Refers double (some 0) new_compressor windows
unfolding size
large_enough = (λ m. refl_free m, omega arith)
  where
    refl_free : {A : Type 0} → ◌≡◌ {A = Bool} false true → A
    refl_free m = absurd (ground arith)

free : once.0.mid ≡ true → once.0.attached ≢ some 0
unfolding compress_chunk encode_chunk finish_chunk prime is_stale reachable
free m = absurd (ground arith)

ran : Steps storing storing-Refers double (new_compressor, windows) 2 (once.0, then_added)
ran =
    then_step
      (then_step start (chunk (1 ∷ 2 ∷ []) (some 0) true new_compressor windows large_enough))
      (added 0 (3 ∷ []) once.0 once.1 free)

allowed : MayChunk storing storing-Refers double (some 0) once.0 then_added
unfolding compress_chunk encode_chunk finish_chunk prime is_stale reachable size dict add remember
    append enlarge compact
allowed = (λ m. absurd (ground arith), omega arith)

prime_lem_example :
    last once.0.window (storing-Refers.history (prime storing (some 0) then_added once.0).writer)
    ≡ last once.0.window (dict (then_added 0))
prime_lem_example =
    prime_lem storing storing-Refers double new_compressor windows 2 0 once.0 then_added refl
      (λ j. refl) ran (omega arith) allowed
