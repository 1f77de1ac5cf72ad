-- ===== src/Message/Services/RoundTrip.antt =====
-- The services of a peer are read back from their text:
-- saito-core/src/core/consensus/peers/peer_service.rs.
use saito_rust_workspace.Prelude.{
  ℕ, ◌≡◌, refl, ap, ◌∙◌, Bool, true, false, List, [], ◌∷◌, ◌++◌, map, arith, ◌==◌, All, any,
}
use saito_rust_workspace.Bytes.{Bytes}
use saito_rust_workspace.Outcome.{ok, ◌>>=◌}
use saito_rust_workspace.Message.Services.{
  PeerService, semicolon, bar, split, join, service_text, parse_service, serialize_services,
  parse_services, deserialize_services,
}

-- the string does not hold the separator
abbrev pub Lacks : ℕ → Bytes → Type 0
Lacks c bs = any (λ b. b == c) bs ≡ false

split-clean : (c : ℕ) (bs : Bytes) → Lacks c bs → split c bs ≡ bs ∷ []
unfolding split
split-clean c [] lacks = refl
split-clean c (b ∷ bs) lacks =
    let below = split-clean c bs (ground (arith, lacks)) in
    let other : (b == c) ≡ false = ground (arith, lacks) in rw (below, other) refl

split-append : (c : ℕ) (bs rest : Bytes) → Lacks c bs → split c (bs ++ c ∷ rest) ≡ bs ∷ split c rest
unfolding split
split-append c [] rest lacks = let same : (c == c) ≡ true = ground arith in rw (same) refl
split-append c (b ∷ bs) rest lacks =
    let below = split-append c bs rest (ground (arith, lacks)) in
    let other : (b == c) ≡ false = ground (arith, lacks) in rw (below, other) refl

split-join :
    (c : ℕ) (part : Bytes) (parts : List Bytes)
    → Lacks c part
    → All (Lacks c) parts
    → split c (join c (part ∷ parts)) ≡ part ∷ parts
unfolding join
split-join c part [] lacks all = split-clean c part lacks
split-join c part (next ∷ parts) lacks all =
    split-append c part (join c (next ∷ parts)) lacks
    ∙ ap (λ ps. part ∷ ps) (split-join c next parts all.0 all.1)

-- the fields of a service hold no separator
pub record IsClean (s : PeerService) : Type 0 where
  pub no_bar : Lacks bar s.service × Lacks bar s.domain × Lacks bar s.name
  pub no_semicolon : Lacks semicolon s.service × Lacks semicolon s.domain × Lacks semicolon s.name

parse_service-service_text : (s : PeerService) → IsClean s → parse_service (service_text s) ≡ ok s
unfolding parse_service service_text
parse_service-service_text s clean =
    let parts =
      split-join bar s.service (s.domain ∷ s.name ∷ []) clean.no_bar.0
        (clean.no_bar.1, (clean.no_bar.2, tt)) in
    rw (parse_service, parts) refl

Lacks-append : (c : ℕ) (xs ys : Bytes) → Lacks c xs → Lacks c ys → Lacks c (xs ++ ys)
Lacks-append c [] ys hx hy = hy
Lacks-append c (x ∷ xs) ys hx hy = ground (arith, hx, Lacks-append c xs ys (ground (arith, hx)) hy)

service_text-Lacks : (s : PeerService) → IsClean s → Lacks semicolon (service_text s)
unfolding service_text join
service_text-Lacks s clean =
    Lacks-append semicolon s.service (bar ∷ (s.domain ++ bar ∷ s.name)) clean.no_semicolon.0
      (Lacks-append semicolon s.domain (bar ∷ s.name) clean.no_semicolon.1 clean.no_semicolon.2)

parse_one :
    (s : PeerService) (text : Bytes) (parts : List Bytes)
    → parse_service text ≡ ok s
    → parse_services (text ∷ parts) ≡ (parse_services parts >>= λ services. ok (s ∷ services))
unfolding parse_services parse_service split
parse_one s [] parts e = cc (e)
parse_one s (b ∷ bs) parts e =
    ap (λ m. m >>= λ service. parse_services parts >>= λ services. ok (service ∷ services)) e

parse_services-texts :
    (ss : List PeerService) → All IsClean ss → parse_services (map service_text ss) ≡ ok ss
unfolding parse_services
parse_services-texts [] clean = refl
parse_services-texts (s ∷ ss) clean =
    parse_one s (service_text s) (map service_text ss) (parse_service-service_text s clean.0)
    ∙ ap (λ m. m >>= λ services. ok (s ∷ services)) (parse_services-texts ss clean.1)

texts-Lacks : (ss : List PeerService) → All IsClean ss → All (Lacks semicolon) (map service_text ss)
texts-Lacks [] clean = tt
texts-Lacks (s ∷ ss) clean = (service_text-Lacks s clean.0, texts-Lacks ss clean.1)

split_services :
    (ss : List PeerService)
    → All IsClean ss
    → parse_services (split semicolon (serialize_services ss)) ≡ ok ss
unfolding serialize_services join split parse_services
split_services [] clean = refl
split_services (s ∷ ss) clean =
    ap parse_services (
      split-join semicolon (service_text s) (map service_text ss) (service_text-Lacks s clean.0)
        (texts-Lacks ss clean.1))
    ∙ parse_services-texts (s ∷ ss) clean

deserialize_text :
    (is_utf8 : Bytes → Bool) (text : Bytes) (ss : List PeerService)
    → is_utf8 text ≡ true
    → parse_services (split semicolon text) ≡ ok ss
    → deserialize_services is_utf8 text ≡ ok ss
unfolding deserialize_services parse_services split
deserialize_text is_utf8 [] ss valid e = e
deserialize_text is_utf8 (b ∷ bs) ss valid e = rw (valid) e

-- Services whose fields hold neither separator are read back from their text, if the text is UTF-8.
pub deserialize_services-serialize_services :
    (is_utf8 : Bytes → Bool) (ss : List PeerService)
    → is_utf8 (serialize_services ss) ≡ true
    → All IsClean ss
    → deserialize_services is_utf8 (serialize_services ss) ≡ ok ss
deserialize_services-serialize_services is_utf8 ss valid clean =
    deserialize_text is_utf8 (serialize_services ss) ss valid (split_services ss clean)
