-- ===== src/Storage/Objects.antt =====
-- The managed objects of crates/storage/src/lib.rs: keys, and the files of LocalFsBackend.
use strife.Base.{
  ℕ, ◌≡◌, refl, sym, ap, subst, ◌∙◌, Option, none, some, List, [], ◌∷◌, Bool, true, false, ◌&&◌,
  not, arith, inl, inr, Bool-cases, Option-cases, ◌==◌, ==_iff, where_rows, if◌then◌else◌, ltb, min,
  ◌-◌,
}

pub data StorageNamespace : Type 0 where
  staging originals artifacts : StorageNamespace

pub record StorageKey : Type 0 where
  pub namespace : StorageNamespace
  pub id : ℕ

abbrev pub key_in_staging : ℕ → StorageKey
key_in_staging id = record { namespace = staging; id = id }

abbrev pub key_in_originals : ℕ → StorageKey
key_in_originals id = record { namespace = originals; id = id }

abbrev pub key_in_artifacts : ℕ → StorageKey
key_in_artifacts id = record { namespace = artifacts; id = id }

abbrev pub same_namespace : StorageNamespace → StorageNamespace → Bool
same_namespace staging staging = true
same_namespace originals originals = true
same_namespace artifacts artifacts = true
same_namespace _ _ = false

-- Two keys have one path just when they are equal: root/namespace/id.
abbrev pub same_key : StorageKey → StorageKey → Bool
same_key a b = same_namespace a.namespace b.namespace && a.id == b.id

-- A file of the backend; a number stands for its bytes.
pub record StoredObject : Type 0 where
  pub key : StorageKey
  pub content : ℕ

abbrev pub content_of : StorageKey → List StoredObject → Option ℕ
content_of key [] = none
content_of key (o ∷ os) = if same_key o.key key then some o.content else content_of key os

-- What a reader yields: `length` bytes of a content from `offset` on.
pub record Reader : Type 0 where
  pub content : ℕ
  pub offset : ℕ
  pub length : ℕ

-- `size_of` is the length of a content.
unfoldable pub get_stream : (ℕ → ℕ) → StorageKey → List StoredObject → Option Reader
get_stream size_of key objects = elim (content_of key objects) [
  | none ↦ none
  | some c ↦ some (record { content = c; offset = 0; length = size_of c })
]

unfoldable pub get_range : (ℕ → ℕ) → StorageKey → ℕ → ℕ → List StoredObject → Option Reader
get_range size_of key offset length objects = elim (content_of key objects) [
  | none ↦ none
  | some c ↦
      if ltb (size_of c) offset
      then none
      else some (record { content = c; offset = offset; length = min length (size_of c - offset) })
]

-- A file that is not there is deleted as well.
unfoldable pub delete : StorageKey → List StoredObject → List StoredObject
delete key = where_rows (λ o. not (same_key o.key key))

-- fs::rename, which replaces a file at the destination and fails without one at the source.
unfoldable pub move_object :
    StorageKey → StorageKey → List StoredObject → Option (List StoredObject)
unfolding delete
move_object source destination objects = elim (content_of source objects) [
  | none ↦ none
  | some content ↦
      some (
        record { key = destination; content = content }
        ∷ delete destination (delete source objects))
]

same_namespace-eq : (a b : StorageNamespace) → same_namespace a b ≡ true → a ≡ b
same_namespace-eq staging staging h = refl
same_namespace-eq originals originals h = refl
same_namespace-eq artifacts artifacts h = refl
same_namespace-eq staging originals h = cc
same_namespace-eq staging artifacts h = cc
same_namespace-eq originals staging h = cc
same_namespace-eq originals artifacts h = cc
same_namespace-eq artifacts staging h = cc
same_namespace-eq artifacts originals h = cc

pub same_key-eq : (a b : StorageKey) → same_key a b ≡ true → a ≡ b
same_key-eq a b h =
    let n = same_namespace-eq a.namespace b.namespace (ground arith) in
    let i : a.id ≡ b.id = (==_iff a.id b.id).0 (ground arith) in
    λ k. record { namespace = n k; id = i k }

pub same_key_refl : (a : StorageKey) → same_key a a ≡ true
same_key_refl a = ground (arith, same a.namespace)
  where
    same : (n : StorageNamespace) → same_namespace n n ≡ true
    same staging = refl
    same originals = refl
    same artifacts = refl

-- After a deletion every other key has the content that it had.
pub delete-content_of :
    (a b : StorageKey) (os : List StoredObject)
    → same_key a b ≡ false
    → content_of b (delete a os) ≡ content_of b os
unfolding delete
delete-content_of a b [] apart = ground arith
delete-content_of a b (o ∷ os) apart = elim (Bool-cases (same_key o.key a)) [
  | inl hit ↦
      let other : same_key o.key b ≡ false =
        ap (λ (k : StorageKey). same_key k b) (same_key-eq o.key a hit) ∙ apart in
      rw (hit, other) (delete-content_of a b os apart)
  | inr miss ↦
      rw miss
        (ap (λ c. if same_key o.key b then some o.content else c) (delete-content_of a b os apart))
]

-- A move puts the content of the source under the destination, whatever was there, and leaves every
-- other key alone.
pub move_object-content_of :
    (source destination : StorageKey) (os after : List StoredObject)
    → move_object source destination os ≡ some after
    → (content_of destination after ≡ content_of source os)
      × ((k : StorageKey)
          → same_key source k ≡ false
          → same_key destination k ≡ false
          → content_of k after ≡ content_of k os)
unfolding move_object
move_object-content_of source destination os after e = elim (Option-cases (content_of source os)) [
  | inl missing ↦ absurd (ground arith)
  | inr (content, at_source) ↦
      let moved : record { key = destination; content = content }
            ∷ delete destination (delete source os)
          ≡ after =
        ground arith in
      (
        subst (λ l. content_of destination l ≡ content_of source os) moved
            (rw (at_source, same_key_refl destination) refl),
        λ k a b.
            subst (λ l. content_of k l ≡ content_of k os) moved
              (rw b (
                delete-content_of destination k (delete source os) b
                ∙ delete-content_of source k os a)),
      )
]

-- A deleted key has no content.
pub delete-content_of_same :
    (a : StorageKey) (os : List StoredObject) → content_of a (delete a os) ≡ none
unfolding delete
delete-content_of_same a [] = ground arith
delete-content_of_same a (o ∷ os) = elim (Bool-cases (same_key o.key a)) [
  | inl hit ↦ rw hit (delete-content_of_same a os)
  | inr miss ↦ rw (miss, miss) (delete-content_of_same a os)
]

-- A deletion makes no object.
pub delete-none :
    (a b : StorageKey) (os : List StoredObject)
    → content_of b os ≡ none
    → content_of b (delete a os) ≡ none
delete-none a b os h = elim (Bool-cases (same_key a b)) [
  | inl same ↦
      subst (λ k. content_of k (delete a os) ≡ none) (same_key-eq a b same)
        (delete-content_of_same a os)
  | inr apart ↦ delete-content_of a b os apart ∙ h
]

-- A temporary file is renamed to the destination, which is replaced; an error of the file system is
-- not modelled.
unfoldable pub put_stream : StorageKey → ℕ → List StoredObject → List StoredObject
unfolding delete
put_stream key content objects = record { key = key; content = content } ∷ delete key objects

-- After a put the key has the content, and every other key the one that it had.
pub put_stream-content_of :
    (a : StorageKey) (content : ℕ) (os : List StoredObject)
    → (content_of a (put_stream a content os) ≡ some content)
      × ((k : StorageKey)
          → same_key a k ≡ false
          → content_of k (put_stream a content os) ≡ content_of k os)
unfolding put_stream
put_stream-content_of a content os =
    (rw (same_key_refl a) refl, λ k apart. rw apart (delete-content_of a k os apart))

-- A body of `size` bytes; `over` says what is in an object, which may not have been there, once the body
-- has been written at an offset.
pub record Body : Type 0 where
  pub size : ℕ
  pub over : Option ℕ → ℕ → ℕ

-- The file is made where there is none; an error of the file system is not modelled.
unfoldable pub write_range : StorageKey → ℕ → Body → List StoredObject → ℕ × List StoredObject
write_range key offset body objects =
    (body.size, put_stream key (body.over (content_of key objects) offset) objects)

-- A move leaves nothing under the source, if that is not the destination.
pub move_object-source :
    (source destination : StorageKey) (os after : List StoredObject)
    → same_key destination source ≡ false
    → move_object source destination os ≡ some after
    → content_of source after ≡ none
unfolding move_object
move_object-source source destination os after apart e =
    elim (Option-cases (content_of source os)) [
      | inl missing ↦ absurd (ground arith)
      | inr (content, at_source) ↦
          let moved : record { key = destination; content = content }
                ∷ delete destination (delete source os)
              ≡ after =
            ground arith in
          subst (λ l. content_of source l ≡ none) moved
            (rw apart (
              delete-none destination source (delete source os) (delete-content_of_same source os)))
    ]

pub move_object-some :
    (source destination : StorageKey) (os : List StoredObject) (content : ℕ)
    → content_of source os ≡ some content
    → (after : List StoredObject) × (move_object source destination os ≡ some after)
unfolding move_object delete
move_object-some source destination os content here = (
  record { key = destination; content = content } ∷ delete destination (delete source os),
  rw (move_object, here) refl,
)

-- A move to a key that has no object, and back, leaves every key as it was.
pub move_object-back :
    (source destination : StorageKey) (os moved after : List StoredObject)
    → same_key source destination ≡ false
    → same_key destination source ≡ false
    → content_of destination os ≡ none
    → move_object source destination os ≡ some moved
    → move_object destination source moved ≡ some after
    → (k : StorageKey) → content_of k after ≡ content_of k os
move_object-back source destination os moved after apart apart' free e e' k =
    let (there, others) = move_object-content_of source destination os moved e in
    let (here, others') = move_object-content_of destination source moved after e' in
    elim (Bool-cases (same_key source k)) [
      | inl at_source ↦
          subst (λ j. content_of j after ≡ content_of j os) (same_key-eq source k at_source)
            (here ∙ there)
      | inr not_source ↦ elim (Bool-cases (same_key destination k)) [
        | inl at_destination ↦
            subst (λ j. content_of j after ≡ content_of j os)
              (same_key-eq destination k at_destination)
              (move_object-source destination source moved after apart e' ∙ sym free)
        | inr not_destination ↦
            others' k not_destination not_source ∙ others k not_source not_destination
      ]
    ]
