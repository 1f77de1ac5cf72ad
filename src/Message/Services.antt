-- ===== src/Message/Services.antt =====
-- saito-core/src/core/consensus/peers/peer_service.rs: the services of a peer as text. A `String` is its
-- bytes in UTF-8, and what is valid UTF-8 is an argument.
pub mod RoundTrip
use saito_rust_workspace.Prelude.{
  ℕ, zero, suc, ◌+◌, ◌-◌, ◌*◌, ◌/◌, ◌%◌, ◌^◌, ◌≤◌, ◌<◌, min, max, ◌≡◌, ◌≢◌, ◌↔◌, ◌⊎◌, refl, sym, ap,
  ap₂, ◌∙◌, fun_ext, Bool, true, false, not, ◌&&◌, ◌||◌, Option, none, some, inl, inr, List, [],
  ◌∷◌, ◌++◌, map, reverse, append-nil, append_assoc, arith, dec_lt, ℕ_discrete, ltb, leb, ◌==◌,
  if◌then◌else◌, ltb→lt, lt→ltb, leb→le, ==_iff, tests, Bool-cases, Option-cases, length, get_elem?,
  set, get_or, take, drop, replicate, length-append, length-set, length-take, length-drop,
  length-map, take-append-drop, All, any, keep_if, All-append, All-append_left, All-append_right,
  get_elem?_in_range, lt_of_get_elem?, get_elem?-append_end, All-set, All-get, any-append_end,
  get_elem?-set_self, get_elem?-set_ne, length-replicate, length-reverse,
}
use saito_rust_workspace.Bytes.{
  Bytes, AreBytes, IsArray, to_be_bytes, from_be_bytes, slice, index, bytes_eq, concat, zeros,
}
use saito_rust_workspace.Bytes.Endian.{
  length-to_be_bytes, to_be_bytes-AreBytes, from_be_bytes-to_be_bytes, to_be_bytes-from_be_bytes,
  from_be_bytes-lt,
}
use saito_rust_workspace.Bytes.Slices.{
  slice-append_skip, slice-append_self, slice-eq-ok, index-append_skip, bytes_eq_iff, bytes_eq_refl,
  slice_split, index_split, slice_in_range, drop-length, slice-IsArray, index-lt, zeros-IsArray,
  index_in_range,
}
use saito_rust_workspace.Outcome.{
  Outcome, ok, err, panic, ◌>>=◌, ◌>>◌, check, assert, ok_or, unwrap, >>=-eq-ok, ErrorKind,
  invalid_input, invalid_data, not_found,
}

pub record PeerService : Type 0 where
  pub service : Bytes
  pub domain : Bytes
  pub name : Bytes

-- `;` and `|`
abbrev pub semicolon : ℕ
semicolon = 59

abbrev pub bar : ℕ
bar = 124

-- the first part of a split, and the rest put behind it
abbrev extend : ℕ → List Bytes → List Bytes
extend b [] = (b ∷ []) ∷ []
extend b (part ∷ parts) = (b ∷ part) ∷ parts

-- `str.split(c)`: an empty string has one part.
unfoldable pub split : ℕ → Bytes → List Bytes
split c [] = [] ∷ []
split c (b ∷ bs) = let rest = split c bs in if b == c then [] ∷ rest else extend b rest

-- `parts.join(c)`
unfoldable pub join : ℕ → List Bytes → Bytes
join c [] = []
join c (part ∷ []) = part
join c (part ∷ next ∷ parts) = part ++ c ∷ join c (next ∷ parts)

-- `String::from(service)`
unfoldable pub service_text : PeerService → Bytes
unfolding join
service_text s = join bar (s.service ∷ s.domain ∷ s.name ∷ [])

-- `PeerService::try_from(value)`
unfoldable pub parse_service : Bytes → Outcome PeerService
unfolding split
parse_service value = elim (split bar value) [
  | (service ∷ domain ∷ name ∷ []) ↦ ok (record { service = service; domain = domain; name = name })
  | _ ↦ err invalid_data
]

unfoldable pub serialize_services : List PeerService → Bytes
unfolding service_text join
serialize_services services = join semicolon (map service_text services)

-- the loop over the parts, in which an empty one is passed over
unfoldable pub parse_services : List Bytes → Outcome (List PeerService)
unfolding parse_service
parse_services [] = ok []
parse_services ([] ∷ parts) = parse_services parts
parse_services ((b ∷ bs) ∷ parts) = do
  service ← parse_service (b ∷ bs)
  services ← parse_services parts
  ok (service ∷ services)

unfoldable pub deserialize_services : (Bytes → Bool) → Bytes → Outcome (List PeerService)
unfolding parse_services
deserialize_services is_utf8 [] = ok []
deserialize_services is_utf8 (b ∷ bs) =
    check (is_utf8 (b ∷ bs)) invalid_data >> parse_services (split semicolon (b ∷ bs))
