-- ===== src/Tunnel/Edge/Headers.antt =====
-- Which headers a request is handed on with by the edge of
-- specimens/ingress-tunnel/internal/edge/proxy.go.
use saas_reaper.Base.{
  String, ◌≡◌, refl, sym, ap, ◌∙◌, inl, inr, Bool, true, false, ◌||◌, Option, none, some, List, [],
  ◌∷◌, ◌==◌, eq_iff, arith, Bool-cases,
}
use saas_reaper.Base.Map.{lookup, delete, lookup-insert, lookup-delete}
use saas_reaper.Tunnel.Edge.{
  Headers, forwarded_for, forwarded_proto, Net, Proxy, Request, aliases, add_chain, is_trusted,
  trusted_forwarded_for, is_forwarded, strip_forwarded, strip_names, strip_forwarding_aliases,
  rewrite,
}

abbrev pub is_triple : String → Bool
is_triple name = name == forwarded_for || name == "X-Forwarded-Host" || name == forwarded_proto

module _ (net : Net) where
  open net use {to_lower, canonical}

  delete-none :
      (name gone : String) (h : Headers) → lookup name h ≡ none → lookup name (delete gone h) ≡ none
  delete-none name gone h e = rw (lookup-delete gone name h) (ground arith)

  strip_names-none :
      (name : String) (names : List String) (h : Headers)
      → lookup name h ≡ none
      → lookup name (strip_names net names h) ≡ none
  unfolding strip_names
  strip_names-none name [] h e = e
  strip_names-none name (n ∷ names) h e =
      strip_names-none name names _ (delete-none name (canonical n) h e)

  strip_forwarded-none :
      (name : String) (names h : Headers)
      → lookup name h ≡ none
      → lookup name (strip_forwarded net names h) ≡ none
  unfolding strip_forwarded
  strip_forwarded-none name [] h e = e
  strip_forwarded-none name ((n, v) ∷ names) h e = elim (Bool-cases (is_forwarded net n)) [
    | inl f ↦ rw f (strip_forwarded-none name names _ (delete-none name (canonical n) h e))
    | inr f ↦ rw f (strip_forwarded-none name names h e)
  ]

  -- A forwarded header that is among the names, or that is not there, is not there in the end.
  strip_forwarded-gone :
      (name : String) (names h : Headers)
      → canonical name ≡ name
      → is_forwarded net name ≡ true
      → (lookup name names ≡ none → lookup name h ≡ none)
      → lookup name (strip_forwarded net names h) ≡ none
  unfolding strip_forwarded lookup
  strip_forwarded-gone name [] h c f e = e refl
  strip_forwarded-gone name ((n, v) ∷ names) h c f e = elim (Bool-cases (n == name)) [
    | inl m ↦
        let same = (eq_iff n name).0 m in
        let gone : lookup name (delete (canonical n) h) ≡ none =
          rw (lookup-delete (canonical n) name h, same, c) (ground (arith, eq_iff name name)) in
        let test : is_forwarded net n ≡ true = ap (is_forwarded net) same ∙ f in
        rw test (strip_forwarded-none name names _ gone)
    | inr m ↦ elim (Bool-cases (is_forwarded net n)) [
      | inl g ↦ rw g (
          strip_forwarded-gone name names _ c f
            (λ x. delete-none name (canonical n) h (e (rw m x))))
      | inr g ↦ rw g (strip_forwarded-gone name names h c f (λ x. e (rw m x)))
    ]
  ]

  -- A header that begins with `X-Forwarded-`, in any case, is stripped.
  strip-forwarded_gone :
      (name : String) (h : Headers)
      → canonical name ≡ name
      → is_forwarded net name ≡ true
      → lookup name (strip_forwarding_aliases net h) ≡ none
  unfolding strip_forwarding_aliases
  strip-forwarded_gone name h c f =
      strip_names-none name aliases _ (strip_forwarded-gone name h h c f (λ x. x))

  for_is_forwarded : is_forwarded net forwarded_for ≡ true
  for_is_forwarded = rw (net.lower_for) refl

  untrusted_chain :
      (r : Request) (out : Headers)
      → is_trusted net r.peer ≡ false
      → lookup forwarded_for
          (add_chain (trusted_forwarded_for net r) (strip_forwarding_aliases net out))
        ≡ none
  unfolding trusted_forwarded_for add_chain
  untrusted_chain r out t =
      rw t (strip-forwarded_gone forwarded_for out net.canonical_for for_is_forwarded)

  abbrev chained : Request → Headers → Headers
  chained r out = add_chain (trusted_forwarded_for net r) (strip_forwarding_aliases net out)

  -- Writing the protocol leaves the other headers.
  lookup-rewrite :
      (proxy : Proxy) (r : Request) (out : Headers) (name : String)
      → (forwarded_proto == name) ≡ false
      → lookup name (rewrite net proxy r out)
        ≡ lookup name (net.set_forwarded r.peer r.host (chained r out))
  unfolding rewrite
  lookup-rewrite proxy r out name h =
      rw
        (
          lookup-insert (canonical forwarded_proto) name (proxy.forward ∷ [])
              (net.set_forwarded r.peer r.host (chained r out)),
          net.canonical_proto,
          h,
        )
        refl

  -- For a peer that is no front on the same host, the client chain that a request is handed on with is
  -- decided by the peer's address and the host alone: whatever headers the visitor sends, and whatever
  -- the standard proxy starts with, the chain is the same.
  pub visitor_cannot_forge :
      (proxy : Proxy) (r s : Request) (out_r out_s : Headers)
      → r.peer ≡ s.peer
      → r.host ≡ s.host
      → is_trusted net r.peer ≡ false
      → lookup forwarded_for (rewrite net proxy r out_r)
        ≡ lookup forwarded_for (rewrite net proxy s out_s)
  visitor_cannot_forge proxy r s out_r out_s peer host t =
      let t' : is_trusted net s.peer ≡ false = ap (is_trusted net) (sym peer) ∙ t in
      lookup-rewrite proxy r out_r forwarded_for refl
      ∙ (net.set_chain r.peer r.host (chained r out_r) (chained s out_s)
            (untrusted_chain r out_r t ∙ sym (untrusted_chain s out_s t'))
          ∙ (ap (λ p. lookup forwarded_for (net.set_forwarded p r.host (chained s out_s))) peer
              ∙ (ap (λ h. lookup forwarded_for (net.set_forwarded s.peer h (chained s out_s))) host
                  ∙ sym (lookup-rewrite proxy s out_s forwarded_for refl))))

  -- One of the names is spelled like this in a header.
  abbrev pub has_canonical : String → List String → Bool
  has_canonical name [] = false
  has_canonical name (n ∷ names) = canonical n == name || has_canonical name names

  strip_names-gone :
      (name : String) (names : List String) (h : Headers)
      → has_canonical name names ≡ true
      → lookup name (strip_names net names h) ≡ none
  unfolding strip_names
  strip_names-gone name [] h m = cc
  strip_names-gone name (n ∷ names) h m = elim (Bool-cases (canonical n == name)) [
    | inl e ↦ strip_names-none name names _ (rw (lookup-delete (canonical n) name h, e) refl)
    | inr e ↦ strip_names-gone name names _ (rw e at m)
  ]

  chain_other :
      (o : Option (List String)) (name : String) (h : Headers)
      → is_triple name ≡ false
      → lookup name (add_chain o h) ≡ lookup name h
  unfolding add_chain
  chain_other none name h t = refl
  chain_other (some []) name h t = refl
  chain_other (some (v ∷ vs)) name h t =
      rw (lookup-insert forwarded_for name (v ∷ vs) h)
        (ground (arith, eq_iff forwarded_for name, eq_iff name forwarded_for))

  -- A header that can name a visitor, one that begins with `X-Forwarded-` in any case or one of the
  -- aliases, and that is none of the forwarded triple, is not handed on, whoever the peer is. The name
  -- is meant as a header spells it.
  pub no_alias_passes :
      (proxy : Proxy) (r : Request) (out : Headers) (name : String)
      → canonical name ≡ name
      → is_triple name ≡ false
      → (is_forwarded net name || has_canonical name aliases) ≡ true
      → lookup name (rewrite net proxy r out) ≡ none
  unfolding strip_forwarding_aliases
  no_alias_passes proxy r out name c t a =
      lookup-rewrite proxy r out name
        (ground (arith, eq_iff forwarded_proto name, eq_iff name forwarded_proto))
      ∙ (net.set_other r.peer r.host name (chained r out) t
          ∙ (chain_other (trusted_forwarded_for net r) name (strip_forwarding_aliases net out) t
              ∙ elim (Bool-cases (is_forwarded net name)) [
                | inl f ↦ strip-forwarded_gone name out c f
                | inr f ↦ strip_names-gone name aliases _ (rw f at a)
              ]))
