-- ===== src/Server/Handle/Ends.antt =====
-- How the loop of a connection ends.
use greylist.Base.{
  if◌then◌else◌, ℕ, zero, suc, ◌<◌, ◌≡◌, refl, ap, ◌∙◌, sym, ◌⊎◌, inl, inr, Bool, true, false, List,
  [], Option, some, Bytes, Result, ok, err, length, arith, Bool-cases, subst,
}
use greylist.Server.Handle.{
  answer, Handler, Setting, answered, written, after_parse, round, rounds, handle,
}
use greylist.Parser.{parse}
use greylist.Parser.Loop.{Delivers, stop, more, delivery, parse-Delivers}
use greylist.Server.SocketReader.{SocketReader, getline, is_eof}
use greylist.Server.SocketReader.Lines.{
  next_line, next_line-left, socket_reader, read_bytes-progress,
}
use greylist.Server.TripletWriter.{TripletWriter, triplet_writer}
use greylist.Tokens.{postfix_tokens}
use greylist.Server.TripletWriter

-- The socket is at its end, or shorter.
pub Progress : SocketReader → SocketReader → Type 0
Progress r r' = (is_eof r' ≡ true) ⊎ (length r'.input < length r.input)

Delivers-Progress :
    (r' r : SocketReader) (lines : List Bytes) → Delivers socket_reader r' r lines → Progress r r'
unfolding Progress is_eof next_line getline
Delivers-Progress r' r lines (stop e e') =
    subst (λ q. (q.eof ≡ true) ⊎ (length q.input < length r.input)) e'
      (read_bytes-progress r [] 0 r.input)
Delivers-Progress r' r lines (more {line} {lines = rest} e d) =
    elim (Delivers-Progress r' (next_line r).1 rest d) [
      | inl p ↦ inl p
      | inr l ↦ inr (omega (arith, l, next_line-left r line e))
    ]

module _ {W : Type 0} (setting : Setting W) where
  written-reader : (x : Bool × W) (h : Handler W) → (written setting x h).1.reader ≡ h.reader
  unfolding written
  written-reader (true, w) h = refl
  written-reader (false, w) h = elim (Bool-cases (setting.signalled w)) [
    | inl e ↦ ground (arith, e)
    | inr e ↦ ground (arith, e)
  ]

  answered-reader :
      (x : Result (Bytes × Option Bytes) × W) (h : Handler W)
      → (answered setting x h).1.reader ≡ h.reader
  unfolding answered
  answered-reader (ok (str, line), w) h = written-reader (setting.write str w) _
  answered-reader (err what, w) h = refl

  pick :
      (b : Bool) (h : Handler W) (y : Bool × Handler W)
      → (if b then (false, h) else y).0 ≡ true
      → (b ≡ false) × ((if b then (false, h) else y) ≡ y)
  pick true h y e = absurd (cc e)
  pick false h y e = (refl, refl)

  -- A round that goes on has read a request before the end.
  after_parse-reader :
      (r : SocketReader) (o : Result TripletWriter) (h : Handler W)
      → (after_parse setting (r, o) h).0 ≡ true
      → (is_eof r ≡ false) × ((after_parse setting (r, o) h).1.reader ≡ r)
  unfolding after_parse
  after_parse-reader r (err what) h e = absurd (cc e)
  after_parse-reader r (ok w) h e =
      let q =
        pick (is_eof r) (record h { reader = r })
          (answered setting (answer setting w h.world) (record h { reader = r })) e in
      (
        q.0,
        ap (λ t. t.1.reader) q.1
            ∙ answered-reader (answer setting w h.world) (record h { reader = r }),
      )

  -- The parse of a request, and how far it got.
  pub parse-Progress :
      (r : SocketReader)
      → (r' : SocketReader) × (o : Result TripletWriter) × (parse triplet_writer postfix_tokens
            false socket_reader r TripletWriter.empty
          ≡ some (r', o))
        × Progress r r'
  parse-Progress r =
      let (lines, r', d) =
        delivery triplet_writer postfix_tokens false socket_reader (suc (length r.input)) r
          (omega arith) in
      (
        r',
        _,
        parse-Delivers triplet_writer postfix_tokens false socket_reader r r' lines
            TripletWriter.empty d,
        Delivers-Progress r' r lines d,
      )

  shorter-Progress :
      (r r' : SocketReader) → is_eof r' ≡ false → Progress r r' → length r'.input < length r.input
  unfolding Progress
  shorter-Progress r r' e (inl p) = absurd (cc (sym e ∙ p))
  shorter-Progress r r' e (inr l) = l

  pub round-parsed :
      (h : Handler W) (r' : SocketReader) (o : Result TripletWriter)
      → (setting.interrupted h.world).0 ≡ false
      → parse triplet_writer postfix_tokens false socket_reader h.reader TripletWriter.empty
        ≡ some (r', o)
      → round setting h
        ≡ some (after_parse setting (r', o) (record h { world = (setting.interrupted h.world).1 }))
  unfolding round
  round-parsed h r' o i p = rw (i, p) refl

  -- A round returns, and the input is shorter when it goes on.
  pub round-returns :
      (h : Handler W)
      → (go_on : Bool) × (h' : Handler W) × (round setting h ≡ some (go_on, h'))
        × ((go_on ≡ true) → length h'.reader.input < length h.reader.input)
  unfolding round
  round-returns h = elim (Bool-cases (setting.interrupted h.world).0) [
    | inl i ↦ (
      false,
      record h { world = (setting.interrupted h.world).1 },
      ground (arith, i),
      λ e. absurd (cc e),
    )
    | inr i ↦
        let w = (setting.interrupted h.world).1 in
        let (r', o, p, d) = parse-Progress h.reader in
        let x = after_parse setting (r', o) (record h { world = w }) in
        (
          x.0,
          x.1,
          round-parsed h r' o i p,
          λ e.
              let (f, q) = after_parse-reader r' o (record h { world = w }) e in
              subst (λ t. length t.input < length h.reader.input) (sym q)
                (shorter-Progress h.reader r' f d),
        )
  ]

  rounds-returns :
      (fuel : ℕ) (h : Handler W)
      → length h.reader.input < fuel
      → (h' : Handler W) × (rounds setting fuel h ≡ some h')
  unfolding rounds
  rounds-returns zero h l = elim l [ ]
  rounds-returns (suc fuel) h l = elim (Bool-cases (is_eof h.reader)) [
    | inl e ↦ (h, rw e refl)
    | inr e ↦
        let (go_on, h', p, shorter) = round-returns h in
        elim (Bool-cases go_on) [
          | inl t ↦
              let (last, q) = rounds-returns fuel h' (omega (arith, l, shorter t)) in
              (last, ground (arith, e, p, t, q))
          | inr t ↦ (h', ground (arith, e, p, t))
        ]
  ]

  -- The loop over the requests of a connection ends, for any input, core, action, limit and
  -- outcome of the writes: its fuel, one more than the bytes of the input, is enough.
  pub handle_returns : (h : Handler W) → (h' : Handler W) × (handle setting h ≡ some h')
  unfolding handle
  handle_returns h = rounds-returns (suc (length h.reader.input)) h (omega arith)
