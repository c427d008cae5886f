-- ===== src/TcpListener/Choice.antt =====
-- Which address `TCPListener::open` takes, and what it throws when there is none.
use greylist.Base.{
  ℕ, ◌≡◌, refl, ap, ◌∙◌, inl, inr, Bool, true, false, none, some, List, [], ◌∷◌, ◌++◌, Option-cases,
  Bytes, codes, Result, ok, err,
}
use greylist.TcpListener.{
  TcpListener, Calls, Address, found, Attempt, bound, exhausted, or_next, try_addresses, conclude,
  resolved, open_listener, failure, null_if_empty,
}
use greylist.Base.Int.{pos}
use greylist.Utils.{show_unsigned}

module _ {W : Type 0} (os : Calls W) where
  -- The descriptor of a socket that is bound to the address.
  pub data Accepts (a : Address) (w : W) : ℕ → W → Type 0 where
    taken :
        {fd : ℕ} {w' w'' : W}
        → os.socket a w ≡ (some fd, w')
        → os.bind fd a (os.setsockopt fd w') ≡ (true, w'')
        → Accepts a w fd w''

  -- The address gives no socket, or one that cannot be bound and is closed again.
  pub data Refuses (a : Address) (w : W) : W → Type 0 where
    no_socket : {w' : W} → os.socket a w ≡ (none, w') → Refuses a w w'
    no_bind :
        {fd : ℕ} {w' w'' : W}
        → os.socket a w ≡ (some fd, w')
        → os.bind fd a (os.setsockopt fd w') ≡ (false, w'')
        → Refuses a w (os.close (pos fd) w'').1

  -- One address after the other.
  pub data RefusesAll : List Address → W → W → Type 0 where
    none_left : {w : W} → RefusesAll [] w w
    one_more :
        {a : Address} {rest : List Address} {w w' w'' : W}
        → Refuses a w w'
        → RefusesAll rest w' w''
        → RefusesAll (a ∷ rest) w w''

  -- The first address of the list that is accepted.
  Picks : List Address → W → ℕ → Address → W → Type 0
  Picks list w fd a w'' =
      (before after : List Address) × (w' : W) × (list ≡ before ++ a ∷ after)
      × RefusesAll before w w'
      × Accepts a w' fd w''

  Chosen : List Address → W → Attempt × W → Type 0
  Chosen list w (bound fd a, w') = Picks list w fd a w'
  Chosen list w (exhausted op error, w') = RefusesAll list w w'

  -- The listener has the socket of the first address that is accepted, and listens on it; there
  -- is none if it throws.
  pub Opened : TcpListener → List Address → W → Result TcpListener × W → Type 0
  Opened l list w (ok l', w') =
      (fd : ℕ) × (a : Address) × (w'' : W) × Picks list w fd a w''
      × (l' ≡ record l { addrlen = some a.addrlen; fd = pos fd })
      × (w' ≡ os.freeaddrinfo (os.listen fd l.backlog w''))
  Opened l list w (err e, w') = RefusesAll list w w'

  refused-Chosen :
      (a : Address) (rest : List Address) {w w' : W} (r : Attempt × W)
      → Refuses a w w'
      → Chosen rest w' r
      → Chosen (a ∷ rest) w r
  unfolding Chosen Picks
  refused-Chosen a rest (bound fd b, w'') n (before, after, v, e, all, yes') =
      (a ∷ before, after, v, ap (λ xs. a ∷ xs) e, one_more n all, yes')
  refused-Chosen a rest (exhausted op error, w'') n all = one_more n all

  or_next-Chosen :
      (fd : ℕ) (a : Address) (rest : List Address) (w w' : W) (r : Bool × W)
      (next : W → Attempt × W)
      → os.socket a w ≡ (some fd, w')
      → os.bind fd a (os.setsockopt fd w') ≡ r
      → ((v : W) → Chosen rest v (next v))
      → Chosen (a ∷ rest) w (or_next os fd a r next)
  unfolding or_next Chosen Picks
  or_next-Chosen fd a rest w w' (true, w'') next e e' h = ([], rest, w, refl, none_left, taken e e')
  or_next-Chosen fd a rest w w' (false, w'') next e e' h =
      refused-Chosen a rest (next _) (no_bind e e') (h _)

  try_addresses-Chosen :
      (list : List Address) (op : Bytes) (error : ℕ) (w : W)
      → Chosen list w (try_addresses os op error list w)
  unfolding try_addresses Chosen
  try_addresses-Chosen [] op error w = none_left
  try_addresses-Chosen (a ∷ rest) op error w = elim (Option-cases (os.socket a w).0) [
    | inl e ↦
        rw (e, try_addresses)
          (refused-Chosen a rest _ (no_socket (ap (λ s. (s, (os.socket a w).1)) e))
            (try_addresses-Chosen rest _ _ _))
    | inr (fd, e) ↦
        rw (e, try_addresses)
          (or_next-Chosen fd a rest w _ _ _ (ap (λ s. (s, (os.socket a w).1)) e) refl
            (try_addresses-Chosen rest _ _))
  ]

  conclude-Opened :
      (l : TcpListener) (list : List Address) (w : W) (r : Attempt × W)
      → Chosen list w r
      → Opened l list w (conclude os l r)
  unfolding conclude Chosen Opened
  conclude-Opened l list w (bound fd a, w') c = (fd, a, w', c, refl, refl)
  conclude-Opened l list w (exhausted op error, w') c = c

  -- If `getaddrinfo` gives a list of addresses: when `open` returns, the listener has the socket
  -- of the first address in it that gives a socket which can be bound, after each address before
  -- it has been tried in turn, with the length of this address, and the socket listens; when
  -- `open` throws, every address was tried and refused.
  pub open_listener-Opened :
      (l : TcpListener) (w w' : W) (a : Address) (rest : List Address)
      → os.getaddrinfo (null_if_empty l.host) l.port w ≡ (found a rest, w')
      → Opened l (a ∷ rest) w' (open_listener os l w)
  unfolding open_listener resolved
  open_listener-Opened l w w' a rest e =
      rw e (conclude-Opened l (a ∷ rest) w' _ (try_addresses-Chosen (a ∷ rest) _ _ w'))

  conclude-exhausted :
      (l : TcpListener) (r : Attempt × W) {op : Bytes} {error : ℕ}
      → r.0 ≡ exhausted op error
      → (conclude os l r).0 ≡ err (failure os op l (os.strerror error) (show_unsigned error))
  unfolding conclude
  conclude-exhausted l (bound fd a, w) e = absurd (cc e)
  conclude-exhausted l (exhausted op error, w) e = cc e

  or_next-refused :
      (fd : ℕ) (a : Address) (r : Bool × W) (next : W → Attempt × W)
      → r.0 ≡ false
      → or_next os fd a r next ≡ next (os.close (pos fd) r.1).1
  unfolding or_next
  or_next-refused fd a (true, w) next e = absurd (cc e)
  or_next-refused fd a (false, w) next e = refl

  try_addresses-refused :
      (list : List Address) (op : Bytes) (error : ℕ) (w : W)
      → ((a : Address) (w : W) → (fd : ℕ) × ((os.socket a w).0 ≡ some fd))
      → ((fd : ℕ) (a : Address) (w : W) → (os.bind fd a w).0 ≡ false)
      → (try_addresses os op error list w).0 ≡ exhausted op error
  unfolding try_addresses
  try_addresses-refused [] op error w s b = refl
  try_addresses-refused (a ∷ rest) op error w s b =
      let (fd, e) = s a w in
      rw (e, try_addresses)
        (ap (λ r. r.0) (or_next-refused fd a _ (try_addresses os op error rest) (b fd a _))
          ∙ try_addresses-refused rest op error _ s b)

  -- If `getaddrinfo` gives a list of addresses, each of them gives a socket, and none can be
  -- bound: `open` throws, and the text names `getaddrinfo` and the `errno` that was there behind
  -- it, whatever the calls of `bind` have set.
  pub open_listener-refused :
      (l : TcpListener) (w w' : W) (a : Address) (rest : List Address)
      → os.getaddrinfo (null_if_empty l.host) l.port w ≡ (found a rest, w')
      → ((a : Address) (w : W) → (fd : ℕ) × ((os.socket a w).0 ≡ some fd))
      → ((fd : ℕ) (a : Address) (w : W) → (os.bind fd a w).0 ≡ false)
      → (open_listener os l w).0
        ≡ err (
            failure os
              (codes "getaddrinfo")
              l
              (os.strerror (os.errno w'))
              (show_unsigned (os.errno w')))
  unfolding open_listener resolved
  open_listener-refused l w w' a rest e s b =
      rw (e) (conclude-exhausted l _ (try_addresses-refused (a ∷ rest) _ _ w' s b))
