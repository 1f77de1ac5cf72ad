-- ===== src/Message/Handshake/RoundTrip.antt =====
-- A handshake response is read back: saito-core/src/core/msg/handshake.rs.
use saito_rust_workspace.Prelude.{
  ℕ, suc, ◌+◌, ◌%◌, ◌^◌, ◌<◌, ◌≡◌, refl, sym, ap, ap₂, ◌∙◌, Bool, true, false, not, some, List, [],
  ◌∷◌, ◌++◌, append-nil, append_assoc, arith, ltb, ◌==◌, length, get_elem?, length-append, All,
}
use saito_rust_workspace.Bytes.{Bytes, to_be_bytes, from_be_bytes, slice, index, concat}
use saito_rust_workspace.Bytes.Endian.{length-to_be_bytes, from_be_bytes-to_be_bytes}
use saito_rust_workspace.Outcome.{Outcome, ok, err, panic, invalid_data}
use native.Mathlib.Nat.{mod-eq_of_lt}
use saito_rust_workspace.Bytes.Layout.{Sized, offset, length-concat, slice_part, index_part}
use saito_rust_workspace.Transaction.Wire.Loops.{slice_middle}
use saito_rust_workspace.Version
use saito_rust_workspace.Version.{Version}
use saito_rust_workspace.Version.Codec as VersionCodec
use saito_rust_workspace.Message.Services.{PeerService, serialize_services, deserialize_services}
use saito_rust_workspace.Message.Services.RoundTrip.{
  IsClean, deserialize_services-serialize_services,
}
use saito_rust_workspace.Message.Ghost.{bit}
use saito_rust_workspace.Message.Handshake.{
  HandshakeResponse, serialize_response, read_url, read_services, deserialize_response,
}

-- the fields fit their types, and the texts are UTF-8
pub record IsWellSized (is_utf8 : Bytes → Bool) (r : HandshakeResponse) : Type 0 where
  pub core_fits : VersionCodec.IsVersion r.core_version
  pub wallet_fits : VersionCodec.IsVersion r.wallet_version
  pub public_key_size : length r.public_key ≡ 33
  pub signature_size : length r.signature ≡ 64
  pub challenge_size : length r.challenge ≡ 32
  pub url_fits : length r.block_fetch_url < 2 ^ 32
  pub url_text : is_utf8 r.block_fetch_url ≡ true
  pub services_text : is_utf8 (serialize_services r.services) ≡ true
  pub services_clean : All IsClean r.services

abbrev layout : List ℕ
layout = 4 ∷ 4 ∷ 33 ∷ 64 ∷ 32 ∷ 1 ∷ 4 ∷ []

abbrev parts : HandshakeResponse → List Bytes
parts r =
    Version.serialize r.core_version
    ∷ Version.serialize r.wallet_version
    ∷ r.public_key
    ∷ r.signature
    ∷ r.challenge
    ∷ (bit r.is_lite ∷ [])
    ∷ to_be_bytes 4 (length r.block_fetch_url % 2 ^ 32)
    ∷ []

read_url-back :
    (is_utf8 : Bytes → Bool) (pre url rest : Bytes)
    → length pre ≡ 142
    → is_utf8 url ≡ true
    → read_url is_utf8 (pre ++ (url ++ rest)) (length url) ≡ ok url
unfolding read_url
read_url-back is_utf8 pre [] rest here valid = refl
read_url-back is_utf8 pre (b ∷ url) rest here valid =
    let text : Bytes = b ∷ url in
    let some_url : ltb 0 (length text) ≡ true = ground arith in
    let long : not (ltb (length (pre ++ (text ++ rest))) (142 + length text)) ≡ true =
      ground (arith, here, length-append pre (text ++ rest), length-append text rest) in
    rw
      (
        read_url,
        some_url,
        long,
        slice_middle pre text rest 142 (142 + length text) here refl,
        valid,
      )
      refl

read_text-back :
    (is_utf8 : Bytes → Bool) (pre : Bytes) (end : ℕ) (text : Bytes) (ss : List PeerService)
    → length pre ≡ end
    → deserialize_services is_utf8 text ≡ ok ss
    → read_services is_utf8 (pre ++ text) end ≡ ok ss
unfolding read_services deserialize_services
read_text-back is_utf8 pre end [] ss here back =
    let none_left : ltb end (length (pre ++ [])) ≡ false =
      ground (arith, here, length-append pre []) in
    rw (read_services, none_left) back
read_text-back is_utf8 pre end (b ∷ bs) ss here back =
    let text : Bytes = b ∷ bs in
    let some_left : ltb end (length (pre ++ text)) ≡ true =
      ground (arith, here, length-append pre text) in
    let all_of : length (pre ++ text) ≡ end + length text =
      omega (arith, here, length-append pre text) in
    let taken : slice (pre ++ text) end (length (pre ++ text)) ≡ ok text =
      ap₂ (λ t k. slice (pre ++ t) end k) (sym (append-nil text)) all_of
      ∙ slice_middle pre text [] end (end + length text) here refl in
    let as_invalid : Outcome (List PeerService) → Outcome (List PeerService) =
      λ m. elim m [ ok services ↦ ok services | err e ↦ err invalid_data | panic ↦ panic ] in
    rw (read_services, some_left, taken) (ap as_invalid back)

module _ (is_utf8 : Bytes → Bool) (r : HandshakeResponse) (w : IsWellSized is_utf8 r) where
  abbrev text : Bytes
  text = serialize_services r.services

  abbrev rest : Bytes
  rest = r.block_fetch_url ++ text

  sized : Sized layout (parts r)
  sized = (
    VersionCodec.length-serialize r.core_version,
    (
      VersionCodec.length-serialize r.wallet_version,
      (
        w.public_key_size,
        (
          w.signature_size,
          (
            w.challenge_size,
            (refl, (length-to_be_bytes 4 (length r.block_fetch_url % 2 ^ 32), tt)),
          ),
        ),
      ),
    ),
  )

  text_eq : serialize_response r ≡ concat (parts r) ++ rest
  unfolding serialize_response concat
  text_eq = simp (append_assoc, append-nil)

  here : length (concat (parts r)) ≡ 142
  here = length-concat layout (parts r) sized

  part :
      (i : ℕ) {p : Bytes}
      → get_elem? (parts r) i ≡ some p
      → slice (concat (parts r) ++ rest) (offset layout i) (offset layout (suc i)) ≡ ok p
  part i h = slice_part layout (parts r) sized rest i h

  lite : index (concat (parts r) ++ rest) 137 ≡ ok (bit r.is_lite)
  lite = index_part layout (parts r) sized rest 5 refl

  version_back :
      (v : Version) → VersionCodec.IsVersion v → Version.deserialize (Version.serialize v) ≡ ok v
  version_back v fits =
      ap Version.deserialize (sym (append-nil (Version.serialize v)))
      ∙ VersionCodec.deserialize-serialize v fits []

  lite_back : (b : Bool) → not (bit b == 0) ≡ b
  lite_back true = refl
  lite_back false = refl

  -- A handshake response in range, whose texts are UTF-8 and whose services hold no separator, is read
  -- back from its bytes.
  pub deserialize_response-serialize_response :
      deserialize_response is_utf8 (serialize_response r) ≡ ok r
  unfolding deserialize_response
  deserialize_response-serialize_response =
      let all : Bytes = concat (parts r) ++ rest in
      let long : not (ltb (length all) 142) ≡ true =
        ground (arith, here, length-append (concat (parts r)) rest) in
      let count : from_be_bytes (to_be_bytes 4 (length r.block_fetch_url % 2 ^ 32))
          ≡ length r.block_fetch_url =
        from_be_bytes-to_be_bytes 4 (length r.block_fetch_url % 2 ^ 32) (omega arith)
        ∙ mod-eq_of_lt w.url_fits in
      let url : read_url is_utf8 all (length r.block_fetch_url) ≡ ok r.block_fetch_url =
        read_url-back is_utf8 (concat (parts r)) r.block_fetch_url text here w.url_text in
      let end : length (concat (parts r) ++ r.block_fetch_url) ≡ 142 + length r.block_fetch_url =
        omega (arith, here, length-append (concat (parts r)) r.block_fetch_url) in
      let services : read_services is_utf8 all (142 + length r.block_fetch_url) ≡ ok r.services =
        ap (λ b. read_services is_utf8 b (142 + length r.block_fetch_url))
          (sym (append_assoc (concat (parts r)) r.block_fetch_url text))
        ∙ read_text-back is_utf8 (concat (parts r) ++ r.block_fetch_url) _ text r.services end (
            deserialize_services-serialize_services is_utf8 r.services w.services_text
              w.services_clean) in
      rw (
        text_eq,
        long,
        part 0 refl,
        version_back r.core_version w.core_fits,
        part 1 refl,
        version_back r.wallet_version w.wallet_fits,
        part 2 refl,
        part 3 refl,
        part 4 refl,
        lite,
        part 6 refl,
        count,
        url,
        services,
        lite_back r.is_lite,
      )
