-- ===== src/TestRunner/Capture.antt =====
-- `_read_bounded` and `run_command` of backend/app/services/test_runner.py: what is kept of the output of a
-- process. A stream is the list of the answers of its `read`, of which the empty one is the last.
use issue_pilot.Prelude.{
  ℕ, zero, suc, ◌-◌, ◌≤◌, ◌≡◌, refl, ap, sym, ◌∙◌, Option, none, some, List, [], ◌∷◌, ◌++◌, Bool,
  false, ◌&&◌, ◌||◌, ltb, leb, length, take, All, arith, length-append, length-take,
}
use mathlib.Core.List.{append_assoc, append-nil}
use issue_pilot.Schemas.{ℤ}

abbrev pub Bytes : Type 0
Bytes = List ℕ

-- @dataclass CommandResult
pub record CommandResult : Type 0 where
  pub return_code : ℤ
  pub stdout : Bytes
  pub stderr : Bytes
  pub stdout_truncated : Bool
  pub stderr_truncated : Bool
  pub output_sha256 : Option ℕ

-- `captured`, what `digest` was updated with, and whether this reader has set `overflow`.
pub record Captured : Type 0 where
  pub captured : Bytes
  pub digested : Bytes
  pub overflow : Bool

-- The loop of `_read_bounded`.
unfoldable pub read_bounded_loop : (limit : ℕ) → List Bytes → Captured → Captured
read_bounded_loop limit [] state = state
read_bounded_loop limit ([] ∷ chunks) state = state
read_bounded_loop limit ((byte ∷ bytes) ∷ chunks) state =
    let chunk = byte ∷ bytes in
    let remaining = limit - length state.captured in
    read_bounded_loop limit chunks (record {
      captured = state.captured ++ take remaining chunk;
      digested = state.digested ++ chunk;
      overflow = state.overflow || ltb remaining (length chunk);
    })

-- `none` for a stream that is None
unfoldable pub read_bounded : Option (List Bytes) → (limit : ℕ) → Captured
read_bounded none limit = record { captured = []; digested = []; overflow = false }
read_bounded (some chunks) limit =
    read_bounded_loop limit chunks (record { captured = []; digested = []; overflow = false })

-- What the operating system makes of a command.
pub data Process : Type 0 where
  could_not_start : Process
  over_time : Process
  exited : (stdout stderr : List Bytes) → (return_code : ℤ) → Process

pub data CommandOutcome : Type 0 where
  completed : CommandResult → CommandOutcome
  timed_out_error os_error : CommandOutcome

-- The result that `run_command` returns. `overflow` is shared by the two readers.
unfoldable pub collect :
    (hash : Bytes → ℕ)
    → (combine : ℕ → ℕ → ℕ) → (limit : ℕ) → (stdout stderr : Captured) → (return_code : ℤ)
    → CommandResult
collect hash combine limit stdout stderr return_code =
    let overflow = stdout.overflow || stderr.overflow in
    record {
      return_code = return_code;
      stdout = stdout.captured;
      stderr = stderr.captured;
      stdout_truncated = overflow && leb limit (length stdout.captured);
      stderr_truncated = overflow && leb limit (length stderr.captured);
      output_sha256 = some (combine (hash stdout.digested) (hash stderr.digested));
    }

-- The bytes of a stream.
pub join {ℓ} : {A : Type ℓ} → List (List A) → List A
join [] = []
join (xs ∷ rest) = xs ++ join rest

-- No answer before the end of a stream is empty.
abbrev pub IsChunk : Bytes → Type 0
IsChunk chunk = 1 ≤ length chunk

sub_zero : (n : ℕ) → n - 0 ≡ n
sub_zero n = omega arith

sub_suc : (n m : ℕ) → suc n - suc m ≡ n - m
sub_suc n m = omega arith

take-append :
    (n : ℕ) (xs ys : Bytes) → take n xs ++ take (n - length (take n xs)) ys ≡ take n (xs ++ ys)
take-append zero xs ys = refl
take-append (suc n) [] ys = ap (λ k. take k ys) (sub_zero (suc n))
take-append (suc n) (x ∷ xs) ys =
    ap (λ k. x ∷ (take n xs ++ take k ys)) (sub_suc n (length (take n xs)))
    ∙ ap (λ zs. x ∷ zs) (take-append n xs ys)

-- The state of a reader that has seen these bytes.
abbrev pub seen_state : ℕ → Bytes → Captured
seen_state limit seen = record {
  captured = take limit seen;
  digested = seen;
  overflow = ltb limit (length seen);
}

over-append :
    (limit : ℕ) (seen chunk : Bytes)
    → (ltb limit (length seen) || ltb (limit - length (take limit seen)) (length chunk))
      ≡ ltb limit (length (seen ++ chunk))
over-append limit seen chunk = ground (arith, length-take limit seen, length-append seen chunk)

turn :
    (limit : ℕ) (chunk : Bytes) (chunks : List Bytes) (seen : Bytes)
    → IsChunk chunk
    → read_bounded_loop limit (chunk ∷ chunks) (seen_state limit seen)
      ≡ read_bounded_loop limit chunks (seen_state limit (seen ++ chunk))
unfolding read_bounded_loop
turn limit [] chunks seen p = ground (arith, p)
turn limit (byte ∷ bytes) chunks seen p =
    ap
      (λ c. read_bounded_loop limit chunks (record {
        captured = c;
        digested = seen ++ byte ∷ bytes;
        overflow =
            ltb limit (length seen) || ltb (limit - length (take limit seen)) (suc (length bytes));
      }))
      (take-append limit seen (byte ∷ bytes))
    ∙ ap
        (λ o. read_bounded_loop limit chunks (record {
          captured = take limit (seen ++ byte ∷ bytes);
          digested = seen ++ byte ∷ bytes;
          overflow = o;
        }))
        (over-append limit seen (byte ∷ bytes))

read_bounded_loop_lem :
    (limit : ℕ) (chunks : List Bytes) (seen : Bytes)
    → All IsChunk chunks
    → read_bounded_loop limit chunks (seen_state limit seen)
      ≡ seen_state limit (seen ++ join chunks)
unfolding read_bounded_loop join
read_bounded_loop_lem limit [] seen h = ap (seen_state limit) (sym (append-nil seen))
read_bounded_loop_lem limit (chunk ∷ chunks) seen (p, h) =
    turn limit chunk chunks seen p
    ∙ read_bounded_loop_lem limit chunks (seen ++ chunk) h
    ∙ ap (seen_state limit) (append_assoc seen chunk (join chunks))

start_state :
    (limit : ℕ) → record { captured = []; digested = []; overflow = false } ≡ seen_state limit []
start_state zero = refl
start_state (suc limit) =
    ap (λ o. record { captured = []; digested = []; overflow = o }) (ground arith)

-- Of a stream whose answers before the end are not empty, `_read_bounded` keeps the first bytes up
-- to the limit, digests all of them, and reports an overflow exactly if there are
-- more than the limit, however the stream is cut into answers.
pub read_bounded_lem :
    (limit : ℕ) (chunks : List Bytes)
    → All IsChunk chunks
    → read_bounded (some chunks) limit ≡ record {
      captured = take limit (join chunks);
      digested = join chunks;
      overflow = ltb limit (length (join chunks));
    }
unfolding read_bounded
read_bounded_lem limit chunks h =
    ap (read_bounded_loop limit chunks) (start_state limit)
    ∙ read_bounded_loop_lem limit chunks [] h
