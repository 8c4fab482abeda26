-- ===== src/Remote/Address/RoundTrip.antt =====
-- Canonical addresses of plain hosts under `parse_addr` of src/remote.rs.
use sessionhub.Base.{
  ℕ, ◌<◌, ◌≡◌, ◌≢◌, refl, ◌∙◌, inl, inr, Bool, true, false, not, ◌&&◌, [], ◌∷◌, ◌++◌, Option, none,
  some, same, ◌==◌, All, All-append, arith, Bool-cases, codes,
}
use sessionhub.Base.Result.{ok}
use sessionhub.Utf8.{Text, is_whitespace}
use sessionhub.Utf8.Laws.{Solid, trim-Solid}
use sessionhub.Strings.{decimal}
use sessionhub.Strings.Laws.{Without, first_part-alone, any-Without}
use sessionhub.Remote.Address.{
  Target, strip_scheme, port_or, split_hostport, authority, canonical, parse_addr,
}
use sessionhub.Remote.Address.Parts.{
  is_host_char, IsHost, IsInner, All-map, host-IsInner, no_colon, host_port,
  split_hostport-host_port, split_hostport-host, IsPlain, host_port-IsPlain, strip_scheme-host_port,
  strip_scheme-https,
}

-- What Unicode's lower case leaves alone: the characters of a host as it is stored.
abbrev pub KeepsLower : (Text → Text) → Type 0
KeepsLower to_lowercase = (cs : Text) → All (λ c. is_host_char c ≡ true) cs → to_lowercase cs ≡ cs

-- A target of a plain host: one of lower-case letters, digits, `-`, `_` and `.`, a port, and
-- TLS only to what is no IP address.
abbrev pub IsPlainTarget : (Text → Bool) → Target → Type 0
IsPlainTarget is_ip t =
    IsHost t.host × (0 < t.port) × (t.port < 65536) × (t.tls ≡ true → is_ip t.host ≡ false)

pub solid : (cs : Text) → IsPlain cs → Solid cs
solid = All-map (λ c h. h.1)

pub slashless : (cs : Text) → IsPlain cs → Without (λ c. c == b'/') cs
slashless = All-map (λ c h. h.0)

inner-IsPlain : (cs : Text) → All IsInner cs → IsPlain cs
inner-IsPlain = All-map (λ c h. (h.1, h.5, h.6))

parse_addr-parts :
    (is_ip : Text → Bool) (to_lowercase : Text → Text) (text hostport host : Text) (scheme : Bool)
    (port : Option ℕ)
    → same text [] ≡ false
    → Solid text
    → strip_scheme text ≡ (scheme, hostport)
    → IsPlain hostport
    → split_hostport hostport ≡ ok (host, port)
    → same host [] ≡ false
    → let tls : Bool = scheme && not (is_ip host) in
      let p : ℕ = port_or port tls in
      (p == 0) ≡ false
      → parse_addr is_ip to_lowercase text
        ≡ ok (record { tls = tls; host = to_lowercase host; port = p })
unfolding parse_addr
parse_addr-parts is_ip to_lowercase text hostport host scheme port filled hs e hp parts named
      nonzero =
    rw (
      parse_addr,
      trim-Solid text hs,
      filled,
      e,
      first_part-alone b'/' hostport (slashless hostport hp),
      trim-Solid hostport (solid hostport hp),
      parts,
      named,
      nonzero,
    )

nonzero_default : (tls : Bool) → (port_or none tls == 0) ≡ false
unfolding port_or
nonzero_default true = refl
nonzero_default false = refl

pub not_empty : (cs : Text) → cs ≢ [] → same cs [] ≡ false
not_empty [] h = absurd (h refl)
not_empty (c ∷ cs) h = refl

pub not_empty_front : (cs : Text) (c : ℕ) (rest : Text) → same (cs ++ c ∷ rest) [] ≡ false
not_empty_front [] c rest = refl
not_empty_front (d ∷ cs) c rest = refl

https-Solid : Solid (codes "https://")
unfolding is_whitespace
https-Solid = (refl, (refl, (refl, (refl, (refl, (refl, (refl, (refl, tt))))))))

-- A target is read back by `parse_addr` from its canonical spelling if its host is not empty and has
-- only ASCII lower-case letters, digits, `-`, `_` and `.`, its port is from 1 to 65535, and it uses
-- TLS only where the host is no IP address; whatever is an IP address, and however characters but
-- these are lowered. A host with other characters, such as an IPv6 address, is not covered.
pub parse_addr-canonical :
    (is_ip : Text → Bool) (to_lowercase : Text → Text)
    → KeepsLower to_lowercase
    → (t : Target) → IsPlainTarget is_ip t
    → parse_addr is_ip to_lowercase (canonical t) ≡ ok t
unfolding canonical authority port_or
parse_addr-canonical is_ip to_lowercase lowers t (host, positive, small, named) =
    let inner = host-IsInner t.host host in
    let filled = not_empty t.host host.0 in
    let plain = host_port-IsPlain t.host t.port inner in
    let port = split_hostport-host_port t.host t.port inner small in
    let lower = lowers t.host host.1 in
    elim (Bool-cases t.tls) [
      | inl tls ↦ elim (Bool-cases (t.port == 443)) [
        | inl default ↦
            let is_default : t.port ≡ 443 = ground arith in
            rw (canonical, tls, default)
              (parse_addr-parts is_ip to_lowercase (codes "https://" ++ t.host) t.host t.host true
                  none refl
                  (All-append _ (codes "https://") t.host https-Solid
                    (solid t.host (inner-IsPlain t.host inner)))
                  (strip_scheme-https t.host) (inner-IsPlain t.host inner)
                  (split_hostport-host t.host inner) filled
                  (nonzero_default (true && not (is_ip t.host)))
                ∙ rw (named tls, lower, is_default))
        | inr other ↦
            rw (canonical, tls, other)
              (parse_addr-parts is_ip to_lowercase (codes "https://" ++ host_port t.host t.port)
                  (host_port t.host t.port) t.host true (some t.port) refl
                  (All-append _ (codes "https://") (host_port t.host t.port) https-Solid
                    (solid (host_port t.host t.port) plain))
                  (strip_scheme-https (host_port t.host t.port)) plain port filled (ground arith)
                ∙ rw (named tls, lower))
      ]
      | inr clear ↦
          rw
            (
              canonical,
              clear,
              authority,
              any-Without (λ c. c == b':') t.host (no_colon t.host inner),
            )
            (parse_addr-parts is_ip to_lowercase (host_port t.host t.port) (host_port t.host t.port)
                t.host false (some t.port) (not_empty_front t.host b':' (decimal t.port))
                (solid (host_port t.host t.port) plain) (strip_scheme-host_port t.host t.port inner)
                plain port filled (ground arith)
              ∙ rw lower)
    ]
