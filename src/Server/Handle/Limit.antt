-- ===== src/Server/Handle/Limit.antt =====
-- The number of requests that a connection answers.
use greylist.Base.{
  some-injective, ◌≤◌, if◌then◌else◌, ℕ, zero, suc, ◌<◌, ◌≡◌, refl, ap, ◌∙◌, sym, inl, inr, Bool,
  true, false, Option, some, Bytes, Result, ok, err, length, arith, Bool-cases, subst,
}
use greylist.Server.Handle.{
  answer, Handler, Setting, answered, written, after_parse, round, rounds, handle,
}
use greylist.Server.SocketReader.{SocketReader, is_eof}
use greylist.Server.TripletWriter.{TripletWriter}
use greylist.Server.Handle.Ends.{parse-Progress, round-parsed, round-returns}

module _ {W : Type 0} (setting : Setting W) where
  -- The count of requests, against the limit.
  Within : Handler W → Type 0
  Within h = h.handled < setting.max_requests

  -- A step that ends within the limit, and below it when the loop goes on.
  Keeps : Bool × Handler W → Type 0
  Keeps x = (x.1.handled ≤ setting.max_requests) × ((x.0 ≡ true) → Within x.1)

  ended-Keeps : (h : Handler W) → Within h → Keeps (false, h)
  unfolding Keeps Within
  ended-Keeps h l = (omega (arith, l), λ e. absurd (cc e))

  written-Keeps : (x : Bool × W) (h : Handler W) → Within h → Keeps (written setting x h)
  unfolding written Keeps Within
  written-Keeps (true, w) h l = (omega (arith, l), λ e. ground (arith, l, e))
  written-Keeps (false, w) h l = elim (Bool-cases (setting.signalled w)) [
    | inl e ↦ (ground (arith, l, e), λ f. absurd (cc (rw e at f)))
    | inr e ↦ (ground (arith, l, e), λ f. absurd (cc (rw e at f)))
  ]

  answered-Keeps :
      (x : Result (Bytes × Option Bytes) × W) (h : Handler W)
      → Within h
      → Keeps (answered setting x h)
  unfolding answered Within
  answered-Keeps (ok (str, line), w) h l = written-Keeps (setting.write str w) _ l
  answered-Keeps (err what, w) h l = ended-Keeps _ l

  either-Keeps :
      (b : Bool) (h : Handler W) (y : Bool × Handler W)
      → Within h
      → Keeps y
      → Keeps (if b then (false, h) else y)
  either-Keeps true h y l k = ended-Keeps h l
  either-Keeps false h y l k = k

  after_parse-Keeps :
      (r : SocketReader) (o : Result TripletWriter) (h : Handler W)
      → Within h
      → Keeps (after_parse setting (r, o) h)
  unfolding after_parse Within
  after_parse-Keeps r (err what) h l = ended-Keeps _ l
  after_parse-Keeps r (ok w) h l =
      either-Keeps (is_eof r) (record h { reader = r }) _ l
        (answered-Keeps (answer setting w h.world) (record h { reader = r }) l)

  round-stopped :
      (h : Handler W)
      → (setting.interrupted h.world).0 ≡ true
      → round setting h ≡ some (false, record h { world = (setting.interrupted h.world).1 })
  unfolding round
  round-stopped h i = rw i refl

  round-Keeps :
      (h : Handler W) (x : Bool × Handler W) → round setting h ≡ some x → Within h → Keeps x
  unfolding Within
  round-Keeps h x e l = elim (Bool-cases (setting.interrupted h.world).0) [
    | inl i ↦ subst Keeps (some-injective (sym (round-stopped h i) ∙ e)) (ended-Keeps _ l)
    | inr i ↦
        let (r', o, p, d) = parse-Progress setting h.reader in
        subst Keeps (some-injective (sym (round-parsed setting h r' o i p) ∙ e))
          (after_parse-Keeps r' o (record h { world = (setting.interrupted h.world).1 }) l)
  ]

  rounds-on :
      (fuel : ℕ) (h h' : Handler W)
      → is_eof h.reader ≡ false
      → round setting h ≡ some (true, h')
      → rounds setting (suc fuel) h ≡ rounds setting fuel h'
  unfolding rounds
  rounds-on fuel h h' f p = ground (arith, f, p)

  rounds-off :
      (fuel : ℕ) (h h' : Handler W)
      → is_eof h.reader ≡ false
      → round setting h ≡ some (false, h')
      → rounds setting (suc fuel) h ≡ some h'
  unfolding rounds
  rounds-off fuel h h' f p = ground (arith, f, p)

  rounds-limit :
      (fuel : ℕ) (h last : Handler W)
      → rounds setting fuel h ≡ some last
      → Within h
      → last.handled ≤ setting.max_requests
  unfolding rounds Within Keeps
  rounds-limit zero h last e l = absurd (cc e)
  rounds-limit (suc fuel) h last e l = elim (Bool-cases (is_eof h.reader)) [
    | inl f ↦ ground (arith, e, f, l)
    | inr f ↦
        let (go_on, h', p, shorter) = round-returns setting h in
        let (bound, below) = round-Keeps h (go_on, h') p l in
        elim (Bool-cases go_on) [
          | inl t ↦
              rounds-limit fuel h' last
                (sym (rounds-on fuel h h' f (p ∙ ap (λ b. some (b, h')) t)) ∙ e) (below t)
          | inr t ↦
              subst (λ q. q.handled ≤ setting.max_requests)
                (some-injective (sym (rounds-off fuel h h' f (p ∙ ap (λ b. some (b, h')) t)) ∙ e))
                bound
        ]
  ]

  -- A connection whose count of requests is below the limit ends with a count that is at most the
  -- limit, when `handle` returns.
  pub handle_limit :
      (h last : Handler W)
      → h.handled < setting.max_requests
      → handle setting h ≡ some last
      → last.handled ≤ setting.max_requests
  unfolding handle Within
  handle_limit h last l e = rounds-limit (suc (length h.reader.input)) h last e l
