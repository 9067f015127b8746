-- ===== src/Server/SortLaws.antt =====
-- src/server.rs: sorting the token records and collecting them into the map loses none.
use rust_ssh.Prelude.{
  ◌≡◌, refl, sym, ap, ◌∙◌, inl, inr, Bool, true, false, Bool-cases, List, [], ◌∷◌, Option, none,
  some, if◌then◌else◌, list_eq, list_eq_iff, All, Text, as_bytes, lookup, insert,
  lookup-insert_same, lookup-insert_other, lookup-none_cons, lookup_other, list_eq_flip,
  list_eq_apart, AreKeysDistinct,
}
use rust_ssh.Server.Controller.{bytes_leb}
use rust_ssh.Server.Tokens.{TokenRecord, insert_record, sort_records, collect_tokens}
use rust_ssh.Server.LoadLaws.{or_else, pairs, IsUsable, Holds}

lookup-insert_record :
    (id : Text) (r : TokenRecord) (records : List TokenRecord)
    → lookup r.device_id (pairs records) ≡ none
    → lookup id (pairs (insert_record r records)) ≡ lookup id (pairs (r ∷ records))
unfolding lookup insert_record
lookup-insert_record id r [] new = refl
lookup-insert_record id r (s ∷ records) new =
    let (apart, fresh) = lookup-none_cons r.device_id s.device_id s.token (pairs records) new in
    elim (Bool-cases (bytes_leb (as_bytes r.device_id) (as_bytes s.device_id))) [
      | inl first ↦ rw first refl
      | inr later ↦ rw later (
          rw (lookup-insert_record id r records fresh) (
            swap (some s.token) (some r.token) (lookup id (pairs records)) (list_eq s.device_id id)
              (list_eq r.device_id id) λ a b. list_eq_apart s.device_id r.device_id id apart a b))
    ]
  where
    swap :
        (x y z : Option Text) (a b : Bool)
        → (a ≡ true → b ≡ true → ⊥)
        → (if a then x else (if b then y else z)) ≡ (if b then y else (if a then x else z))
    swap x y z true true h = absurd (h refl refl)
    swap x y z true false h = refl
    swap x y z false true h = refl
    swap x y z false false h = refl

insert_record-AreKeysDistinct :
    (r : TokenRecord) (records : List TokenRecord)
    → AreKeysDistinct (pairs records)
    → lookup r.device_id (pairs records) ≡ none
    → AreKeysDistinct (pairs (insert_record r records))
unfolding insert_record
insert_record-AreKeysDistinct r [] h new = (new, tt)
insert_record-AreKeysDistinct r (s ∷ records) (own, h) new =
    let (apart, fresh) = lookup-none_cons r.device_id s.device_id s.token (pairs records) new in
    elim (Bool-cases (bytes_leb (as_bytes r.device_id) (as_bytes s.device_id))) [
      | inl first ↦ rw first (new, (own, h))
      | inr later ↦ rw later (
        lookup-insert_record s.device_id r records fresh
            ∙ lookup_other s.device_id r.device_id r.token (pairs records)
                (list_eq_flip s.device_id r.device_id apart)
            ∙ own,
        insert_record-AreKeysDistinct r records h fresh,
      )
    ]

insert_record-IsUsable :
    (r : TokenRecord) (records : List TokenRecord)
    → IsUsable r
    → All IsUsable records
    → All IsUsable (insert_record r records)
unfolding insert_record
insert_record-IsUsable r [] u h = (u, tt)
insert_record-IsUsable r (s ∷ records) u (us, h) =
    elim (Bool-cases (bytes_leb (as_bytes r.device_id) (as_bytes s.device_id))) [
      | inl first ↦ rw first (u, (us, h))
      | inr later ↦ rw later (us, insert_record-IsUsable r records u h)
    ]

-- Sorting keeps the records and what is found in them.
pub sort_records-Holds :
    (records : List TokenRecord)
    → AreKeysDistinct (pairs records)
    → All IsUsable records
    → Holds (sort_records records) (λ id. lookup id (pairs records))
unfolding sort_records lookup
sort_records-Holds [] d u = record { distinct = tt; usable = tt; same = λ id. refl }
sort_records-Holds (r ∷ records) (new, d) (ur, u) =
    let h = sort_records-Holds records d u in
    let fresh = h.same r.device_id ∙ new in
    record {
      distinct = insert_record-AreKeysDistinct r (sort_records records) h.distinct fresh;
      usable = insert_record-IsUsable r (sort_records records) ur h.usable;
      same = λ id.
          lookup-insert_record id r (sort_records records) fresh
          ∙ ap (λ o. if list_eq r.device_id id then some r.token else o) (h.same id);
    }

pub lookup-collect_tokens :
    (id : Text) (records : List TokenRecord) (m : List (Text × Text))
    → AreKeysDistinct (pairs records)
    → lookup id (collect_tokens records m) ≡ or_else (lookup id (pairs records)) (lookup id m)
unfolding lookup collect_tokens
lookup-collect_tokens id [] m d = refl
lookup-collect_tokens id (r ∷ records) m (new, d) =
    lookup-collect_tokens id records (insert r.device_id r.token m) d
    ∙ elim (Bool-cases (list_eq r.device_id id)) [
      | inl e ↦
          let same : r.device_id ≡ id = (list_eq_iff r.device_id id).0 e in
          let gone : lookup id (pairs records) ≡ none =
            ap (λ k. lookup k (pairs records)) (sym same) ∙ new in
          let put : lookup id (insert r.device_id r.token m) ≡ some r.token =
            ap (λ k. lookup k (insert r.device_id r.token m)) (sym same)
            ∙ lookup-insert_same r.device_id r.token m in
          rw (e, gone) put
      | inr e ↦ rw e (
          ap (or_else (lookup id (pairs records))) (lookup-insert_other r.device_id id r.token m e))
    ]
