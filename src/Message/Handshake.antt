-- ===== src/Message/Handshake.antt =====
-- saito-core/src/core/msg/handshake.rs: the challenge and the response. The URL is its bytes in UTF-8.
pub mod RoundTrip
use saito_rust_workspace.Prelude.{
  ℕ, zero, suc, ◌+◌, ◌-◌, ◌*◌, ◌/◌, ◌%◌, ◌^◌, ◌≤◌, ◌<◌, min, max, ◌≡◌, ◌≢◌, ◌↔◌, ◌⊎◌, refl, sym, ap,
  ap₂, ◌∙◌, fun_ext, Bool, true, false, not, ◌&&◌, ◌||◌, Option, none, some, inl, inr, List, [],
  ◌∷◌, ◌++◌, map, reverse, append-nil, append_assoc, arith, dec_lt, ℕ_discrete, ltb, leb, ◌==◌,
  if◌then◌else◌, ltb→lt, lt→ltb, leb→le, ==_iff, tests, Bool-cases, Option-cases, length, get_elem?,
  set, get_or, take, drop, replicate, length-append, length-set, length-take, length-drop,
  length-map, take-append-drop, All, any, keep_if, All-append, All-append_left, All-append_right,
  get_elem?_in_range, lt_of_get_elem?, get_elem?-append_end, All-set, All-get, any-append_end,
  get_elem?-set_self, get_elem?-set_ne, length-replicate, length-reverse,
}
use saito_rust_workspace.Bytes.{
  Bytes, AreBytes, IsArray, to_be_bytes, from_be_bytes, slice, index, bytes_eq, concat, zeros,
}
use saito_rust_workspace.Bytes.Endian.{
  length-to_be_bytes, to_be_bytes-AreBytes, from_be_bytes-to_be_bytes, to_be_bytes-from_be_bytes,
  from_be_bytes-lt,
}
use saito_rust_workspace.Bytes.Slices.{
  slice-append_skip, slice-append_self, slice-eq-ok, index-append_skip, bytes_eq_iff, bytes_eq_refl,
  slice_split, index_split, slice_in_range, drop-length, slice-IsArray, index-lt, zeros-IsArray,
  index_in_range,
}
use saito_rust_workspace.Outcome.{
  Outcome, ok, err, panic, ◌>>=◌, ◌>>◌, check, assert, ok_or, unwrap, >>=-eq-ok, ErrorKind,
  invalid_input, invalid_data, not_found,
}
use saito_rust_workspace.Version
use saito_rust_workspace.Version.{Version}
use saito_rust_workspace.Message.Services.{PeerService, serialize_services, deserialize_services}
use saito_rust_workspace.Message.Ghost.{bit}

pub record HandshakeResponse : Type 0 where
  pub public_key : Bytes
  pub signature : Bytes
  pub is_lite : Bool
  pub block_fetch_url : Bytes
  pub challenge : Bytes
  pub services : List PeerService
  pub wallet_version : Version
  pub core_version : Version

abbrev pub min_len : ℕ
min_len = 142

-- a challenge is its 32 bytes
unfoldable pub deserialize_challenge : Bytes → Outcome Bytes
deserialize_challenge buffer =
    check (not (ltb (length buffer) 32)) invalid_data >> slice buffer 0 32

unfoldable pub serialize_response : HandshakeResponse → Bytes
serialize_response r = concat (
    Version.serialize r.core_version
    ∷ Version.serialize r.wallet_version
    ∷ r.public_key
    ∷ r.signature
    ∷ r.challenge
    ∷ (bit r.is_lite ∷ [])
    ∷ to_be_bytes 4 (length r.block_fetch_url % 2 ^ 32)
    ∷ r.block_fetch_url
    ∷ serialize_services r.services
    ∷ [])

-- the URL, if it has a length
unfoldable pub read_url : (Bytes → Bool) → Bytes → ℕ → Outcome Bytes
read_url is_utf8 buffer url_length = elim (ltb 0 url_length) [
  | false ↦ ok []
  | true ↦ do
    check (not (ltb (length buffer) (min_len + url_length))) invalid_data
    url ← slice buffer min_len (min_len + url_length)
    check (is_utf8 url) invalid_data
    ok url
]

-- the services, if something is left
unfoldable pub read_services : (Bytes → Bool) → Bytes → ℕ → Outcome (List PeerService)
read_services is_utf8 buffer end = elim (ltb end (length buffer)) [
  | false ↦ ok []
  | true ↦ slice buffer end (length buffer) >>= λ text. elim (deserialize_services is_utf8 text) [
    | ok services ↦ ok services
    | err e ↦ err invalid_data
    | panic ↦ panic
  ]
]

unfoldable pub deserialize_response : (Bytes → Bool) → Bytes → Outcome HandshakeResponse
unfolding read_url read_services
deserialize_response is_utf8 buffer = do
  check (not (ltb (length buffer) min_len)) invalid_data
  core ← slice buffer 0 4
  core_version ← Version.deserialize core
  wallet ← slice buffer 4 8
  wallet_version ← Version.deserialize wallet
  public_key ← slice buffer 8 41
  signature ← slice buffer 41 105
  challenge ← slice buffer 105 137
  is_lite ← index buffer 137
  url_bytes ← slice buffer 138 142
  let url_length = from_be_bytes url_bytes
  block_fetch_url ← read_url is_utf8 buffer url_length
  services ← read_services is_utf8 buffer (min_len + url_length)
  ok (record {
    public_key = public_key;
    signature = signature;
    is_lite = not (is_lite == 0);
    block_fetch_url = block_fetch_url;
    challenge = challenge;
    services = services;
    wallet_version = wallet_version;
    core_version = core_version;
  })
