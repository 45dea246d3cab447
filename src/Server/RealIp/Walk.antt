-- ===== src/Server/RealIp/Walk.antt =====
-- What a client can make of its own address (internal/server/security/xff.go).
use fobe.Prelude.{
  String, List, [], ◌∷◌, ◌++◌, Bool, true, false, none, some, All, ◌==◌, String-HasEq, ◌≡◌, refl,
  sym, ap, ◌∙◌, arith, Bool-cases, Option-cases, inl, inr, ◌⊎◌,
}
use fobe.Server.RealIp.{
  Net, Strings, Request, reversed, is_trusted, socket_ip, parse_forwarded, walk, real_ip,
}

append_nil : (zs : List String) → zs ++ [] ≡ zs
append_nil [] = refl
append_nil (z ∷ zs) = ap (λ r. z ∷ r) (append_nil zs)

append_assoc : (xs ys zs : List String) → (xs ++ ys) ++ zs ≡ xs ++ (ys ++ zs)
append_assoc [] ys zs = refl
append_assoc (x ∷ xs) ys zs = ap (λ r. x ∷ r) (append_assoc xs ys zs)

reversed-append : (xs ys : List String) → reversed (xs ++ ys) ≡ reversed ys ++ reversed xs
reversed-append [] ys = sym (append_nil (reversed ys))
reversed-append (x ∷ xs) ys =
    ap (λ r. r ++ (x ∷ [])) (reversed-append xs ys)
    ∙ append_assoc (reversed ys) (reversed xs) (x ∷ [])

module _ {Ip Range : Type 0} (net : Net Ip Range) (strings : Strings) where
  -- An entry that a proxy of ours left: it parses, and to a trusted address.
  abbrev pub is_proxy : List Range → String → Bool
  is_proxy trusted part = is_trusted net trusted (parse_forwarded net strings part)

  walk-proxies :
      (trusted : List Range) (hops : List String) (entry : String) (rest : List String)
      → All (λ h. is_proxy trusted h ≡ true) hops
      → is_proxy trusted entry ≡ false
      → walk net strings trusted (hops ++ (entry ∷ rest)) ≡ parse_forwarded net strings entry
  unfolding walk is_trusted
  walk-proxies trusted [] entry rest a h = ground arith
  walk-proxies trusted (hop ∷ hops) entry rest a h =
      ground (arith, walk-proxies trusted hops entry rest a.1 h)

  All-append : (P : String → Type 0) (xs ys : List String) → All P xs → All P ys → All P (xs ++ ys)
  All-append P [] ys a b = b
  All-append P (x ∷ xs) ys a b = (a.0, All-append P xs ys a.1 b)

  All-reversed : (P : String → Type 0) (xs : List String) → All P xs → All P (reversed xs)
  All-reversed P [] a = tt
  All-reversed P (x ∷ xs) a = All-append P (reversed xs) (x ∷ []) (All-reversed P xs a.1) (a.0, tt)

  reversed-entry :
      (client : List String) (entry : String) (hops : List String)
      → reversed (client ++ (entry ∷ hops)) ≡ reversed hops ++ (entry ∷ reversed client)
  reversed-entry client entry hops =
      reversed-append client (entry ∷ hops)
      ∙ append_assoc (reversed hops) (entry ∷ []) (reversed client)

  -- On a request through trusted proxies, whose header is not empty and ends in `entry`, no
  -- proxy of ours, and the entries of our own proxies: the address of the client is the one in
  -- `entry`, or that of the socket if `entry` is none, whatever stands to the left of it, which
  -- the client may have sent.
  pub real_ip_lem :
      (trusted : List Range) (r : Request) (client hops : List String) (entry : String)
      → is_trusted net trusted (socket_ip net r) ≡ true
      → (r.forwarded_for == "") ≡ false
      → strings.split_commas r.forwarded_for ≡ client ++ (entry ∷ hops)
      → All (λ h. is_proxy trusted h ≡ true) hops
      → is_proxy trusted entry ≡ false
      → real_ip net strings trusted r ≡ elim (parse_forwarded net strings entry) [
        | none ↦ net.to_text (socket_ip net r)
        | some ip ↦ net.to_text (some ip)
      ]
  unfolding real_ip
  real_ip_lem trusted r client hops entry s nonempty split a h =
      let go : walk net strings trusted (reversed (strings.split_commas r.forwarded_for))
          ≡ parse_forwarded net strings entry =
        ap (λ p. walk net strings trusted (reversed p)) split
        ∙ ap (walk net strings trusted) (reversed-entry client entry hops)
        ∙ walk-proxies trusted (reversed hops) entry (reversed client) (All-reversed _ hops a) h in
      ground (arith, go)

  -- The header of a request that does not come from a trusted proxy is not read.
  pub real_ip-untrusted :
      (trusted : List Range) (r : Request)
      → is_trusted net trusted (socket_ip net r) ≡ false
      → real_ip net strings trusted r ≡ net.to_text (socket_ip net r)
  unfolding real_ip
  real_ip-untrusted trusted r h = ground arith

  walk-untrusted :
      (trusted : List Range) (parts : List String) (ip : Ip)
      → walk net strings trusted parts ≡ some ip
      → is_trusted net trusted (some ip) ≡ false
  unfolding walk
  walk-untrusted trusted [] ip h = ground arith
  walk-untrusted trusted (part ∷ parts) ip h = ground (arith, walk-untrusted trusted parts ip)

  -- The address of the client is always that of the socket, or else one that no trusted proxy
  -- has, on a request of a trusted proxy.
  real_ip-cases :
      (trusted : List Range) (r : Request)
      → (real_ip net strings trusted r ≡ net.to_text (socket_ip net r))
        ⊎ ((ip : Ip) × (real_ip net strings trusted r ≡ net.to_text (some ip))
            × (is_trusted net trusted (some ip) ≡ false)
            × (is_trusted net trusted (socket_ip net r) ≡ true))
  unfolding real_ip
  real_ip-cases trusted r = elim (Bool-cases (is_trusted net trusted (socket_ip net r))) [
    | inr untrusted ↦ inl (ground arith)
    | inl behind ↦ elim (Bool-cases (r.forwarded_for == "")) [
      | inl bare ↦ inl (ground arith)
      | inr full ↦
          elim (Option-cases
            (walk net strings trusted (reversed (strings.split_commas r.forwarded_for)))) [
              | inl e ↦ inl (ground arith)
              | inr (ip, e) ↦ inr (ip, ground arith, walk-untrusted trusted _ ip e, behind)
            ]
    ]
  ]
