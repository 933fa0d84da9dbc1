-- ===== src/Users/Digest.antt =====
-- What the checksum of `GetDBUserCRC32` depends on.
use wireguard_ui.Prelude.{◌≡◌, refl, List, [], ◌∷◌, map, arith}
use wireguard_ui.Users.{Credential, User, Crypto, credential_ids, snapshot, user_crc32}

credential_ids_of_ids :
    (pks : List Credential) (qks : List Credential)
    → map (λ pk. pk.id) pks ≡ map (λ pk. pk.id) qks
    → credential_ids pks ≡ credential_ids qks
unfolding credential_ids
credential_ids_of_ids [] [] e = refl
credential_ids_of_ids [] (q ∷ qks) e = absurd (ground arith)
credential_ids_of_ids (p ∷ pks) [] e = absurd (ground arith)
credential_ids_of_ids (p ∷ pks) (q ∷ qks) e = ground (arith, credential_ids_of_ids pks qks)

-- The checksum depends on the IDs of the credentials only: a record whose credentials are replaced by
-- others with the same IDs in the same order, as with new signature counters, keeps its checksum.
pub user_crc32_of_ids :
    (k : Crypto) (u : User) (qks : List Credential)
    → map (λ pk. pk.id) u.passkeys ≡ map (λ pk. pk.id) qks
    → user_crc32 k (record u { passkeys = qks }) ≡ user_crc32 k u
unfolding user_crc32 snapshot
user_crc32_of_ids k u qks e = let same = credential_ids_of_ids u.passkeys qks e in ground arith
