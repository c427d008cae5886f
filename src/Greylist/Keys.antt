-- ===== src/Greylist/Keys.antt =====
-- The queries of `findTriplet` against what `insertTriplet` stores.
use greylist.Base.{
  subst, All-append, ◌+◌, err, ◌∙◌, ◌/◌, append_assoc, append-nil, ◌++◌, take, ap, ℕ, zero, suc,
  ◌≤◌, ◌≡◌, refl, ◌⊎◌, inl, inr, arith, List, [], ◌∷◌, Option, none, some, All, Bytes, codes, equal,
  if◌then◌else◌, Result, ok,
}
use greylist.Greylist.{
  ModeType, first_calls, row_calls, on_triplet, Greylist, find_calls, insert_calls, effective_mode,
  mode_calls, address_calls, reverse, weak, normal, init,
}
use greylist.Base.State.{pure, ◌>>=◌}
use greylist.IpAddress.Caches.{get_short_client_name_twice}
use greylist.DataSource.{Call, return_field, where_text, where_number, add_string, add_numeric}
use greylist.IpAddress.{Env, IpAddress, get_numeric_idx, get_short_client_name, at_index}
use greylist.IpAddress.Numeric.{dotted, get_numeric_idx-dotted}
use greylist.Session.{Session}
use greylist.Triplet.{get_client_address_numeric_idx}
use greylist.Utils.{uint_max, show_unsigned}
use greylist.Triplet

-- The value that an insert gives to a field.
abbrev pub text_of : Bytes → List Call → Option Bytes
text_of f [] = none
text_of f (add_string g v ∷ calls) = if equal g f then some v else text_of f calls
text_of f (_ ∷ calls) = text_of f calls

abbrev pub number_of : Bytes → List Call → Option ℕ
number_of f [] = none
number_of f (add_numeric g v ∷ calls) = if equal g f then some v else number_of f calls
number_of f (_ ∷ calls) = number_of f calls

-- The row of these values satisfies the condition of the call.
abbrev pub Satisfies : List Call → Call → Type 0
Satisfies values (return_field f) = Unit
Satisfies values (where_text f v op) = (op ≡ codes "=") × (text_of f values ≡ some v)
Satisfies values (where_number f v op) = (op ≡ codes "=") × (number_of f values ≡ some v)
Satisfies values _ = ⊥

-- An address that has been, or can be, parsed to these four numbers.
abbrev pub IsQuad : ℕ → ℕ → ℕ → ℕ → IpAddress → Type 0
IsQuad a b c d ip =
    (ip.numeric ≡ a ∷ b ∷ c ∷ d ∷ [])
    ⊎ ((ip.numeric ≡ [])
        × (ip.str ≡ dotted (a ∷ b ∷ c ∷ d ∷ []))
        × All (λ m. m ≤ uint_max) (a ∷ b ∷ c ∷ d ∷ []))

module _ {W : Type 0} (env : Env) (g : Greylist W) (a b c d : ℕ) where
  parsed : IpAddress → IpAddress
  parsed ip = record ip { numeric = a ∷ b ∷ c ∷ d ∷ [] }

  idx-parsed :
      (i : ℕ) (ip : IpAddress)
      → IsQuad a b c d ip
      → get_numeric_idx env i ip ≡ (ok (at_index env (a ∷ b ∷ c ∷ d ∷ []) i), parsed ip)
  unfolding get_numeric_idx parsed
  idx-parsed i ip (inl h) = ground (arith, h)
  idx-parsed i ip (inr (n, s, v)) = get_numeric_idx-dotted env ip a b c d i n s v

  -- The conditions on the first parts of the address.
  abbrev part_conditions : ℕ → List Call
  part_conditions n = take n (
      where_number (codes "ip64") a (codes "=")
      ∷ where_number (codes "ip32") b (codes "=")
      ∷ where_number (codes "ip16") c (codes "=")
      ∷ where_number (codes "ip8") d (codes "=")
      ∷ [])

  abbrev with_address : IpAddress → Session W → Session W
  with_address ip s = record s { triplet = record s.triplet { client_address = ip } }

  abbrev pub address : Session W → IpAddress
  address s = s.triplet.client_address

  -- The queries may fill the caches of the address: they keep this.
  record Kept (s s' : Session W) : Type 0 where
    quad : IsQuad a b c d (address s')
    sender : s'.triplet.sender ≡ s.triplet.sender
    recipient : s'.triplet.recipient ≡ s.triplet.recipient
    name : (get_short_client_name (address s')).0 ≡ (get_short_client_name (address s)).0

  Kept-parsed :
      (s : Session W) → IsQuad a b c d (address s) → Kept s (with_address (parsed (address s)) s)
  unfolding parsed get_short_client_name
  Kept-parsed s h = record { quad = inl refl; sender = refl; recipient = refl; name = ground arith }

  Kept-short :
      (s : Session W)
      → IsQuad a b c d (address s)
      → Kept s (with_address (get_short_client_name (address s)).1 s)
  unfolding get_short_client_name
  Kept-short s h = record {
    quad = ground arith;
    sender = refl;
    recipient = refl;
    name = ap (λ p. p.0) (get_short_client_name_twice (address s));
  }

  address_calls-step :
      (rounds i j : ℕ) (calls : List Call) (s : Session W)
      → IsQuad a b c d (address s)
      → address_calls env (suc rounds) i j calls s
        ≡ address_calls env rounds
            (i + 1)
            (j / 2)
            (calls
              ++ where_number
                  (codes "ip" ++ show_unsigned j)
                  (at_index env (a ∷ b ∷ c ∷ d ∷ []) i)
                  (codes "=")
                ∷ [])
            (with_address (parsed (address s)) s)
  unfolding address_calls get_client_address_numeric_idx
  address_calls-step rounds i j calls s h =
      ap
        (λ r. elim r.0 [
          | ok v ↦
              address_calls env rounds (i + 1) (j / 2)
                (calls ++ where_number (codes "ip" ++ show_unsigned j) v (codes "=") ∷ [])
                (with_address r.1 s)
          | err e ↦ (err e, with_address r.1 s)
        ])
        (idx-parsed i (address s) h)

  address_calls-quad :
      (rounds : ℕ) (calls : List Call) (s : Session W)
      → rounds ≤ 4
      → IsQuad a b c d (address s)
      → (s' : Session W) × (address_calls env rounds 0 64 calls s
          ≡ (ok (calls ++ part_conditions rounds), s'))
        × Kept s s'
  unfolding address_calls get_client_address_numeric_idx parsed get_numeric_idx show_unsigned
  address_calls-quad zero calls s r h =
      (s, rw (append-nil calls), record { quad = h; sender = refl; recipient = refl; name = refl })
  address_calls-quad (suc zero) calls s r h = (
    with_address (parsed (address s)) s,
    rw (address_calls-step 0 0 64 calls s h) refl,
    Kept-parsed s h,
  )
  address_calls-quad (suc (suc zero)) calls s r h = (
    with_address (parsed (address s)) s,
    rw (address_calls-step 1 0 64 calls s h) (simp append_assoc),
    Kept-parsed s h,
  )
  address_calls-quad (suc (suc (suc zero))) calls s r h = (
    with_address (parsed (address s)) s,
    rw (address_calls-step 2 0 64 calls s h) (simp append_assoc),
    Kept-parsed s h,
  )
  address_calls-quad (suc (suc (suc (suc zero)))) calls s r h = (
    with_address (parsed (address s)) s,
    rw (address_calls-step 3 0 64 calls s h) (simp append_assoc),
    Kept-parsed s h,
  )
  address_calls-quad (suc (suc (suc (suc (suc n))))) calls s r h = absurd (omega arith)

  -- A call for a number of the address, and what comes behind it.
  idx-then :
      {A : Type 0} (i : ℕ) (f : ℕ → Session W → Result A × Session W) (s : Session W)
      → IsQuad a b c d (address s)
      → (on_triplet (get_client_address_numeric_idx env i) >>= f) s
        ≡ f (at_index env (a ∷ b ∷ c ∷ d ∷ []) i) (with_address (parsed (address s)) s)
  unfolding get_client_address_numeric_idx
  idx-then i f s h =
      ap (λ r. elim r.0 [ ok v ↦ f v (with_address r.1 s) | err e ↦ (err e, with_address r.1 s) ])
        (idx-parsed i (address s) h)

  -- The row of `insertTriplet`.
  abbrev pub row_values : ℕ → Session W → List Call
  row_values now s =
      row_calls (get_short_client_name (address s)).0 s.triplet.sender s.triplet.recipient a b c d
        now

  insert_calls-quad :
      (now : ℕ) (s : Session W)
      → IsQuad a b c d (address s)
      → (s' : Session W) × (insert_calls env now s ≡ (ok (row_values now s), s'))
  unfolding insert_calls get_client_address_numeric_idx Triplet.get_short_client_name
      get_numeric_idx parsed
  insert_calls-quad now s h =
      let rest : ℕ → Session W → Result (List Call) × Session W = λ ip64. (do
        ip32 ← on_triplet (get_client_address_numeric_idx env 1)
        ip16 ← on_triplet (get_client_address_numeric_idx env 2)
        ip8 ← on_triplet (get_client_address_numeric_idx env 3)
        pure (
            row_calls (get_short_client_name (address s)).0 s.triplet.sender s.triplet.recipient
              ip64 ip32 ip16 ip8 now)) in
      (
        with_address (parsed (get_short_client_name (address s)).1) s,
        idx-then 0 rest (with_address (get_short_client_name (address s)).1 s)
            (Kept-short s h).quad,
      )

  part_conditions-row :
      (n now : ℕ) (s : Session W) → n ≤ 4 → All (Satisfies (row_values now s)) (part_conditions n)
  unfolding equal
  part_conditions-row zero now s l = tt
  part_conditions-row (suc zero) now s l = ((refl, refl), tt)
  part_conditions-row (suc (suc zero)) now s l = ((refl, refl), ((refl, refl), tt))
  part_conditions-row (suc (suc (suc zero))) now s l =
      ((refl, refl), ((refl, refl), ((refl, refl), tt)))
  part_conditions-row (suc (suc (suc (suc zero)))) now s l =
      ((refl, refl), ((refl, refl), ((refl, refl), ((refl, refl), tt))))
  part_conditions-row (suc (suc (suc (suc (suc n))))) now s l = absurd (omega arith)

  mode_calls-row :
      (m : ModeType) (n now : ℕ) (calls : List Call) (s : Session W)
      → n ≤ 4
      → IsQuad a b c d (address s)
      → (more : List Call) × (s' : Session W) × (mode_calls env n m calls s
          ≡ (ok (calls ++ more), s'))
        × Kept s s'
        × All (Satisfies (row_values now s)) more
  unfolding equal mode_calls Triplet.get_short_client_name
  mode_calls-row reverse n now calls s l h = (
    where_text (codes "client_address") (get_short_client_name (address s)).0 (codes "=") ∷ [],
    with_address (get_short_client_name (address s)).1 s,
    refl,
    Kept-short s h,
    ((refl, refl), tt),
  )
  mode_calls-row weak n now calls s l h =
      let (s', e, k) = address_calls-quad n calls s l h in
      (part_conditions n, s', e, k, part_conditions-row n now s l)
  mode_calls-row normal n now calls s l h =
      let (s', e, k) = address_calls-quad 4 calls s (omega arith) h in
      (part_conditions 4, s', e, k, part_conditions-row 4 now s (omega arith))
  mode_calls-row init n now calls s l h = (
    [],
    s,
    rw (append-nil calls),
    record { quad = h; sender = refl; recipient = refl; name = refl },
    tt,
  )

  effective_mode-Kept :
      (m : ModeType) (s : Session W)
      → IsQuad a b c d (address s)
      → (m' : ModeType) × (s' : Session W) × (effective_mode env m s ≡ (ok m', s')) × Kept s s'
  unfolding effective_mode Triplet.get_short_client_name
  effective_mode-Kept reverse s h = (_, _, refl, Kept-short s h)
  effective_mode-Kept m s h =
      (m, s, refl, record { quad = h; sender = refl; recipient = refl; name = refl })

  -- The row of a triplet does not depend on the caches.
  row_values-Kept : (now : ℕ) (s s' : Session W) → Kept s s' → row_values now s' ≡ row_values now s
  row_values-Kept now s s' k = rw (k.sender, k.recipient, k.name)

  Satisfies-first :
      (now : ℕ) (s : Session W) → All (Satisfies (row_values now s)) (first_calls env s)
  unfolding equal
  Satisfies-first now s = (tt, (tt, (tt, ((refl, refl), ((refl, refl), tt)))))

  -- The two queries, with the row and the conditions that it satisfies.
  pub find_then_insert :
      (now : ℕ) (s : Session W)
      → g.weakbytes ≤ 4
      → IsQuad a b c d (address s)
      → (conditions : List Call) × (s' : Session W) × (s'' : Session W) × (find_calls env g s
          ≡ (ok conditions, s'))
        × (insert_calls env now s' ≡ (ok (row_values now s), s''))
        × All (Satisfies (row_values now s)) conditions
  unfolding find_calls
  find_then_insert now s l h =
      let (m, s0, e0, k0) = effective_mode-Kept g.mode s h in
      let (more, s1, e1, k1, r1) =
        mode_calls-row m g.weakbytes now (first_calls env s) s0 l k0.quad in
      let (s2, e2) = insert_calls-quad now s1 k1.quad in
      let same = row_values-Kept now s0 s1 k1 in
      let same0 = row_values-Kept now s s0 k0 in
      (
        first_calls env s ++ more,
        s1,
        s2,
        ap
              (λ r. elim r.0 [
                | ok m ↦ mode_calls env g.weakbytes m (first_calls env s) r.1
                | err e ↦ (err e, r.1)
              ])
              e0
            ∙ e1,
        e2 ∙ ap (λ row. (ok row, s2)) (same ∙ same0),
        All-append (Satisfies (row_values now s)) (first_calls env s) more (Satisfies-first now s)
            (subst (λ r. All (Satisfies r) more) same0 r1),
      )

  -- In every mode, if `weakbytes` is at most 4 and the address is four numbers that each fit in an
  -- `unsigned`, parsed already or not: the lookup and then the insert build their queries without
  -- an exception, each condition of the lookup is an equality, and the inserted row has the value
  -- that it asks for.
  pub insert_calls-find_calls :
      (now : ℕ) (s : Session W)
      → g.weakbytes ≤ 4
      → IsQuad a b c d (address s)
      → (conditions : List Call) × (row : List Call) × (s' : Session W) × (s'' : Session W)
        × (find_calls env g s ≡ (ok conditions, s'))
        × (insert_calls env now s' ≡ (ok row, s''))
        × All (Satisfies row) conditions
  insert_calls-find_calls now s l h =
      let (conditions, s1, s2, e1, e2, r) = find_then_insert now s l h in
      (conditions, row_values now s, s1, s2, e1, e2, r)
