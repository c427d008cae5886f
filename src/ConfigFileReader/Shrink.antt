-- ===== src/ConfigFileReader/Shrink.antt =====
-- How much of the stream `getline` of src/configfilereader.h uses up.
use greylist.ConfigFileReader.{
  start, Stream, Scan, Next, go_on, leave, give, Ended, fell, gave, ended, scan, conclude, getline,
  step,
}
use greylist.Base.{
  false, true, Bool-cases, some, Bool, length, Bytes, if◌then◌else◌, ℕ, suc, ◌≤◌, ◌<◌, ◌≡◌, refl,
  [], ◌∷◌, arith, inl, inr,
}

-- What is left to read, the end of the file included.
abbrev pub remaining : Stream → ℕ
remaining f = if f.eof then 0 else suc (length f.input)

stream_of : Ended → Stream
stream_of (fell s input eof) = record { input = input; eof = eof }
stream_of (gave s input eof) = record { input = input; eof = eof }

ended-remaining :
    (n : Next) (input : Bytes) (eof : Bool) (next : Scan → Ended) (bound : ℕ)
    → remaining (record { input = input; eof = eof }) ≤ bound
    → ((s : Scan) → remaining (stream_of (next s)) ≤ bound)
    → remaining (stream_of (ended n input eof next)) ≤ bound
unfolding ended stream_of
ended-remaining (go_on s) input eof next bound h k = k s
ended-remaining (leave s) input eof next bound h k = h
ended-remaining (give s) input eof next bound h k = h

scan-remaining : (input : Bytes) (s : Scan) → remaining (stream_of (scan input s)) ≤ length input
unfolding scan stream_of
scan-remaining [] s = ended-remaining (step s) [] true _ 0 (omega arith) (λ t. omega arith)
scan-remaining (c ∷ input) s =
    ended-remaining (step (record s { c = c })) input false (scan input) (suc (length input))
      (omega arith) (λ t. omega (arith, scan-remaining input t))

conclude-stream : (e : Ended) → (conclude e).stream ≡ stream_of e
unfolding conclude stream_of
conclude-stream (fell s input eof) = refl
conclude-stream (gave s input eof) = refl

pub getline-remaining :
    (str : Bytes) (f : Stream) (n : ℕ)
    → (getline str f).count ≡ some n
    → remaining (getline str f).stream < remaining f
unfolding getline
getline-remaining str f n e = elim (Bool-cases f.eof) [
  | inl h ↦ absurd (cc (rw h at e))
  | inr h ↦ rw (h, getline, conclude-stream) (omega (arith, scan-remaining f.input start))
]
