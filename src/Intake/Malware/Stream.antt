-- ===== src/Intake/Malware/Stream.antt =====
-- The scanner receives the file that is scanned.
use document_feeder.Prelude.{
  ℕ, zero, suc, ◌+◌, ◌*◌, ◌/◌, ◌%◌, ◌≤◌, ◌<◌, ◌≡◌, refl, ap, ◌∙◌, true, false, Option, none, some,
  List, [], ◌∷◌, ◌++◌, arith, eqb, leb, length, length-append, All, if◌then◌else◌,
}
use mathlib.Core.Option
use document_feeder.Prelude.Pages.{take, drop}
use document_feeder.Auth.{Bytes}
use document_feeder.Intake.Chunks.{chunks, chunks-concat, concat, IsChunk}
use document_feeder.Intake.Malware.{pack, frames}

-- How a receiver of the protocol reads a stream: four bytes say how many bytes follow, and 0 ends
-- it. `none` is a stream that breaks off, or one of more chunks than `rounds`.
abbrev pub receive : ℕ → Bytes → Option Bytes
receive zero bytes = none
receive (suc rounds) (a ∷ b ∷ c ∷ d ∷ bytes) =
    let n = a * 16777216 + b * 65536 + c * 256 + d in
    let rest = Option.map (λ r. take n bytes ++ r) (receive rounds (drop n bytes)) in
    if eqb n 0 then some [] else if leb n (length bytes) then rest else none
receive (suc rounds) bytes = none

take-append : (xs ys : Bytes) → take (length xs) (xs ++ ys) ≡ xs
take-append [] ys = refl
take-append (x ∷ xs) ys = ap (λ r. x ∷ r) (take-append xs ys)

drop-append : (xs ys : Bytes) → drop (length xs) (xs ++ ys) ≡ ys
drop-append [] ys = refl
drop-append (x ∷ xs) ys = drop-append xs ys

unpack :
    (n : ℕ)
    → n < 4294967296
    → n / 16777216 % 256 * 16777216 + n / 65536 % 256 * 65536 + n / 256 % 256 * 256 + n % 256 ≡ n
unpack n h = omega arith

-- a frame is received
receive-frame :
    (rounds : ℕ) (c rest : Bytes)
    → 1 ≤ length c
    → length c < 4294967296
    → receive (suc rounds) (pack (length c) ++ (c ++ rest))
      ≡ Option.map (λ r. c ++ r) (receive rounds rest)
receive-frame rounds c rest h k =
    let nonzero : eqb (length c) 0 ≡ false = ground arith in
    let fits : leb (length c) (length (c ++ rest)) ≡ true = ground (arith, length-append c rest) in
    rw (unpack (length c) k, take-append c rest, drop-append c rest, nonzero, fits) refl

receive-frames :
    (size : ℕ) (cs : List Bytes)
    → size < 4294967296
    → All (IsChunk size) cs
    → receive (suc (length cs)) (frames cs) ≡ some (concat cs)
unfolding frames
receive-frames size [] h all = refl
receive-frames size (c ∷ cs) h all =
    receive-frame (suc (length cs)) c (frames cs) all.0.0 (omega (arith, all.0.1))
    ∙ ap (Option.map (λ r. c ++ r)) (receive-frames size cs h all.1)

-- A receiver of the scanner's protocol gets exactly the bytes of the file, whatever the size of the
-- chunks, if it is at least 1 and below 2 ^ 32.
pub frames-receive :
    (size : ℕ) (bytes : Bytes)
    → 1 ≤ size
    → size < 4294967296
    → receive (suc (length (chunks size bytes))) (frames (chunks size bytes)) ≡ some bytes
frames-receive size bytes h k =
    let (whole, all) = chunks-concat size bytes h in
    receive-frames size (chunks size bytes) k all ∙ ap some whole
