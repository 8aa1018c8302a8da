-- ===== src/Remote/Server.antt =====
-- crates/store-remote/src/shape.rs: what a server's address is.
use cases.Prelude.{
  ℕ, Bool, true, false, ◌||◌, ◌≡◌, refl, sym, ap, ◌∙◌, ◌⊎◌, inl, inr, Option, none, some, List, [],
  ◌∷◌, ◌++◌, any, codes, arith, Bool-cases, Option-cases,
}
use mathlib.Core.Path.{subst}
use cases.Remote.Parts.{port_text, split_port_parts}
use cases.Remote.Address.{IsName, IsPort, host_name-IsName, port_fits-IsPort, front_small}
use cases.Remote.{
  same_text, lower, split_scheme, strip_slash, is_more, split_port, host_name, port_fits,
  is_loopback, scheme_fits, parse_host, parse_rest, parse_parts, parse,
}

lower-lower : (cs : List ℕ) → lower (lower cs) ≡ lower cs
unfolding lower
lower-lower [] = refl
lower-lower (c ∷ cs) = let rest = lower-lower cs in ground arith

lower-is_more : (cs : List ℕ) → any is_more (lower cs) ≡ any is_more cs
unfolding lower
lower-is_more [] = refl
lower-is_more (c ∷ cs) = let rest = lower-is_more cs in ground arith

strip_slash-kept : (cs : List ℕ) → any is_more cs ≡ false → strip_slash cs ≡ cs
unfolding strip_slash
strip_slash-kept [] h = refl
strip_slash-kept (c ∷ []) h = ground arith
strip_slash-kept (c ∷ d ∷ cs) h = ap (◌∷◌ c) (strip_slash-kept (d ∷ cs) (ground arith))

same_text-eq : (a b : List ℕ) → same_text a b ≡ true → a ≡ b
same_text-eq [] [] h = refl
same_text-eq [] (d ∷ ds) h = absurd (cc h)
same_text-eq (c ∷ cs) [] h = absurd (cc h)
same_text-eq (c ∷ cs) (d ∷ ds) h =
    let head : c ≡ d = ground arith in
    ap (λ c. c ∷ cs) head ∙ ap (◌∷◌ d) (same_text-eq cs ds (ground arith))

-- A host that an address may have, with the name and the port in it.
record IsHost (any_http : Bool) (scheme host name : List ℕ) (port : Option (List ℕ)) : Type 0 where
  pub parts : split_port host ≡ some (name, port)
  pub named : host_name name ≡ true
  pub numbered : port_fits port ≡ true
  pub safe : scheme_fits any_http scheme name ≡ true
  pub alone : any is_more host ≡ false
  pub small : lower host ≡ host

reparsed :
    (any_http : Bool) (scheme host name : List ℕ) {port : Option (List ℕ)}
    → IsHost any_http scheme host name port
    → lower scheme ≡ scheme
    → split_scheme (scheme ++ (codes "://" ++ host)) ≡ some (scheme, host)
    → parse any_http (scheme ++ (codes "://" ++ host)) ≡ some (scheme ++ (codes "://" ++ host))
unfolding parse parse_parts parse_rest parse_host
reparsed any_http scheme host name {port = port} h low split =
    rw
      (
        split,
        low,
        strip_slash-kept host h.alone,
        h.alone,
        h.small,
        h.parts,
        h.named,
        h.numbered,
        h.safe,
      )
      refl

parse_host_passed :
    (any_http : Bool) (scheme host : List ℕ) (o : Option (List ℕ × Option (List ℕ))) {s : List ℕ}
    → parse_host any_http scheme host o ≡ some s
    → (name : List ℕ) × (port : Option (List ℕ)) × (o ≡ some (name, port))
      × (host_name name ≡ true)
      × (port_fits port ≡ true)
      × (scheme_fits any_http scheme name ≡ true)
      × (s ≡ scheme ++ (codes "://" ++ host))
unfolding parse_host
parse_host_passed any_http scheme host none h = absurd (cc h)
parse_host_passed any_http scheme host (some (name, port)) {s = s} h =
    (name, port, refl, ground arith, ground arith, ground arith, ground arith)

parse_rest_passed :
    (any_http : Bool) (scheme rest : List ℕ) {s : List ℕ}
    → parse_rest any_http scheme rest ≡ some s
    → (host : List ℕ) × (name : List ℕ) × (port : Option (List ℕ)) × IsHost any_http scheme host
        name port
      × (s ≡ scheme ++ (codes "://" ++ host))
unfolding parse_rest
parse_rest_passed any_http scheme rest {s = s} h = elim (Bool-cases (any is_more rest)) [
  | inl e ↦ absurd (ground arith)
  | inr e ↦
      (let (name, port, parts, named, numbered, safe, same) =
          parse_host_passed any_http scheme (lower rest) (split_port (lower rest)) {s = s}
            (ground arith) in
        (
          lower rest,
          name,
          port,
          record {
            parts = parts;
            named = named;
            numbered = numbered;
            safe = safe;
            alone = lower-is_more rest ∙ e;
            small = lower-lower rest;
          },
          same,
        ))
]

-- A host that plain `http` is taken for.
abbrev pub IsLoopback : List ℕ → Type 0
IsLoopback name = (name ≡ codes "127.0.0.1") ⊎ (name ≡ codes "localhost") ⊎ (name ≡ codes "[::1]")

-- The text is the address of a server: `https` and a host, or `http` and one that it is taken for.
pub record IsServer (any_http : Bool) (address : List ℕ) : Type 0 where
  pub name : List ℕ
  pub port : List ℕ
  pub named : IsName name
  pub ported : IsPort port
  pub secure :
      (address ≡ codes "https://" ++ (name ++ port))
      ⊎ ((address ≡ codes "http://" ++ (name ++ port)) × ((any_http ≡ true) ⊎ IsLoopback name))

http_host_passed : (name : List ℕ) → is_loopback name ≡ true → IsLoopback name
http_host_passed name h = elim (Bool-cases (same_text name (codes "127.0.0.1"))) [
  | inl e ↦ inl (same_text-eq name (codes "127.0.0.1") e)
  | inr e ↦ elim (Bool-cases (same_text name (codes "localhost"))) [
    | inl f ↦ inr (inl (same_text-eq name (codes "localhost") f))
    | inr f ↦ inr (inr (same_text-eq name (codes "[::1]") (ground arith)))
  ]
]

plain_http_passed :
    (any_http : Bool) (name : List ℕ)
    → (any_http || is_loopback name) ≡ true
    → (any_http ≡ true) ⊎ IsLoopback name
plain_http_passed true name h = inl refl
plain_http_passed false name h = inr (http_host_passed name h)

scheme_is :
    (any_http : Bool) (scheme name : List ℕ)
    → scheme_fits any_http scheme name ≡ true
    → (scheme ≡ codes "https") ⊎ ((scheme ≡ codes "http") × ((any_http || is_loopback name) ≡ true))
unfolding scheme_fits
scheme_is any_http scheme name h = elim (Bool-cases (same_text scheme (codes "https"))) [
  | inl e ↦ inl (same_text-eq scheme (codes "https") e)
  | inr e ↦ inr (same_text-eq scheme (codes "http") (ground arith), ground arith)
]

split_https :
    (host : List ℕ)
    → split_scheme (codes "https" ++ (codes "://" ++ host)) ≡ some (codes "https", host)
unfolding split_scheme
split_https host = refl

split_http :
    (host : List ℕ)
    → split_scheme (codes "http" ++ (codes "://" ++ host)) ≡ some (codes "http", host)
unfolding split_scheme
split_http host = refl

https_kept : lower (codes "https") ≡ codes "https"
unfolding lower
https_kept = refl

http_kept : lower (codes "http") ≡ codes "http"
unfolding lower
http_kept = refl

address-IsServer :
    (any_http : Bool) (scheme host name : List ℕ) {port : Option (List ℕ)}
    → IsHost any_http scheme host name port
    → IsServer any_http (scheme ++ (codes "://" ++ host))
      × (parse any_http (scheme ++ (codes "://" ++ host)) ≡ some (scheme ++ (codes "://" ++ host)))
address-IsServer any_http scheme host name {port = port} h =
    elim (scheme_is any_http scheme name h.safe) [
      | inl e ↦ (
        server (inl (ap (λ t. t ++ (codes "://" ++ host)) e)),
        back e https_kept (split_https host),
      )
      | inr (e, taken) ↦ (
        server (inr (ap (λ t. t ++ (codes "://" ++ host)) e, taken)),
        back e http_kept (split_http host),
      )
    ]
  where
    server :
        (scheme ++ (codes "://" ++ host) ≡ codes "https://" ++ host)
          ⊎ ((scheme ++ (codes "://" ++ host) ≡ codes "http://" ++ host)
              × ((any_http || is_loopback name) ≡ true))
        → IsServer any_http (scheme ++ (codes "://" ++ host))
    server secure =
        let same = split_port_parts host name port h.parts in
        let small = front_small host name (port_text port) h.small same in
        record {
          name = name;
          port = port_text port;
          named = host_name-IsName name h.named small;
          ported = port_fits-IsPort port h.numbered;
          secure = elim secure [
            | inl e ↦ inl (e ∙ ap (λ host. codes "https://" ++ host) same)
            | inr (e, taken) ↦ inr (
              e ∙ ap (λ host. codes "http://" ++ host) same,
              plain_http_passed any_http name taken,
            )
          ];
        }

    back :
        {t : List ℕ}
        → scheme ≡ t
        → lower t ≡ t
        → split_scheme (t ++ (codes "://" ++ host)) ≡ some (t, host)
        → parse any_http (scheme ++ (codes "://" ++ host)) ≡ some (scheme ++ (codes "://" ++ host))
    back {t = t} e low split =
        reparsed any_http scheme host name {port = port} h (subst (λ u. lower u ≡ u) (sym e) low)
          (subst (λ u. split_scheme (u ++ (codes "://" ++ host)) ≡ some (u, host)) (sym e) split)

rest-IsServer :
    (any_http : Bool) (scheme rest : List ℕ) {s : List ℕ}
    → parse_rest any_http scheme rest ≡ some s
    → IsServer any_http s × (parse any_http s ≡ some s)
rest-IsServer any_http scheme rest {s = s} h =
    let (host, name, port, p, same) = parse_rest_passed any_http scheme rest {s = s} h in
    subst (λ s. IsServer any_http s × (parse any_http s ≡ some s)) (sym same)
      (address-IsServer any_http scheme host name {port = port} p)

-- Text that is taken as a server's address gives one of `https` and a host, or, for a loopback host
-- or where plain `http` is taken for any, of `http` and a host. A host is a name of letters in lower
-- case, digits, dots and dashes, the first a letter or a digit, or a bracketed address of digits,
-- `a` to `f` and colons; nothing follows it but a port, a colon and a number below 65536 in digits,
-- which may have a `+` before it. That address is taken as itself.
pub parse-IsServer :
    (any_http : Bool) (text : List ℕ) {s : List ℕ}
    → parse any_http text ≡ some s
    → IsServer any_http s × (parse any_http s ≡ some s)
parse-IsServer any_http text {s = s} h = elim (Option-cases (split_scheme text)) [
  | inl e ↦ absurd (unfold parse in unfold parse_parts in ground arith)
  | inr (parts, e) ↦
      rest-IsServer any_http (lower parts.0) (strip_slash parts.1) {s = s}
        (unfold parse in unfold parse_parts in ground arith)
]
