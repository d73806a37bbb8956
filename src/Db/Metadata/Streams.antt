-- ===== src/Db/Metadata/Streams.antt =====
-- replace_media_streams of crates/db/src/lib.rs: what it leaves, and when it succeeds.
use strife.Base.{
  ℕ, ◌≡◌, refl, sym, ap, ◌∙◌, List, [], ◌∷◌, ◌++◌, map, Bool, true, false, ◌&&◌, not, arith, ◌==◌,
  any, where_rows, All, any-append,
}
use mathlib.Core.List.{append_assoc, append-nil}
use strife.Base.Int.{eq_ℤ}
use strife.Base.Result.{ok, >>=-eq-ok, ok_injective}
use strife.Db.Metadata.{
  MediaStreamInput, MediaStream, stream_allowed, stream_at, stream_row, insert_stream,
  insert_streams, replace_media_streams,
}

insert_stream-row :
    (node_id : ℕ) (exists : Bool) (now : ℕ) (s : ℕ × MediaStreamInput)
    (rows after : List MediaStream)
    → insert_stream node_id exists now s rows ≡ ok after
    → after ≡ rows ++ (stream_row node_id now s ∷ [])
unfolding insert_stream
insert_stream-row node_id exists now (id, s) rows after e = ground arith

insert_streams-rows :
    (node_id : ℕ) (exists : Bool) (now : ℕ) (streams : List (ℕ × MediaStreamInput))
    (rows after : List MediaStream)
    → insert_streams node_id exists now streams rows ≡ ok after
    → after ≡ rows ++ map (stream_row node_id now) streams
insert_streams-rows node_id exists now [] rows after e = sym (append-nil rows ∙ ok_injective e)
insert_streams-rows node_id exists now (s ∷ streams) rows after e =
    let (mid, first, rest) =
      >>=-eq-ok (insert_stream node_id exists now s rows)
        (insert_streams node_id exists now streams) e in
    insert_streams-rows node_id exists now streams mid after rest
    ∙ ap (λ l. l ++ map (stream_row node_id now) streams)
        (insert_stream-row node_id exists now s rows mid first)
    ∙ append_assoc rows (stream_row node_id now s ∷ []) (map (stream_row node_id now) streams)

where_rows-append {ℓ} :
    {A : Type ℓ} (p : A → Bool) (xs ys : List A)
    → where_rows p (xs ++ ys) ≡ where_rows p xs ++ where_rows p ys
where_rows-append p [] ys = refl
where_rows-append p (x ∷ xs) ys = ground (arith, where_rows-append p xs ys)

module _ (node_id now : ℕ) where
  abbrev pub of_node : MediaStream → Bool
  of_node r = r.node_id == node_id

  abbrev pub of_others : MediaStream → Bool
  of_others r = not (r.node_id == node_id)

  own-rows :
      (streams : List (ℕ × MediaStreamInput))
      → where_rows of_node (map (stream_row node_id now) streams)
        ≡ map (stream_row node_id now) streams
  own-rows [] = refl
  own-rows ((id, s) ∷ streams) = ground (arith, own-rows streams)

  no_other-rows :
      (streams : List (ℕ × MediaStreamInput))
      → where_rows of_others (map (stream_row node_id now) streams) ≡ []
  no_other-rows [] = refl
  no_other-rows ((id, s) ∷ streams) = ground (arith, no_other-rows streams)

  deleted-rows : (rows : List MediaStream) → where_rows of_node (where_rows of_others rows) ≡ []
  deleted-rows [] = refl
  deleted-rows (r ∷ rows) = ground (arith, deleted-rows rows)

  kept-rows :
      (rows : List MediaStream)
      → where_rows of_others (where_rows of_others rows) ≡ where_rows of_others rows
  kept-rows [] = refl
  kept-rows (r ∷ rows) = ground (arith, kept-rows rows)

  -- When the replacement succeeds the node has exactly the streams that were given, in their order, and
  -- every other node has the streams that it had.
  pub replace_media_streams-rows :
      (exists : Bool) (streams : List (ℕ × MediaStreamInput)) (rows after : List MediaStream)
      → replace_media_streams node_id exists now streams rows ≡ ok after
      → (where_rows of_node after ≡ map (stream_row node_id now) streams)
        × (where_rows of_others after ≡ where_rows of_others rows)
  unfolding replace_media_streams
  replace_media_streams-rows exists streams rows after e =
      let left = where_rows of_others rows in
      let made = map (stream_row node_id now) streams in
      let shape = insert_streams-rows node_id exists now streams left after e in
      (
        ap (where_rows of_node) shape
            ∙ where_rows-append of_node left made
            ∙ rw (deleted-rows rows, own-rows streams) refl,
        ap (where_rows of_others) shape
            ∙ where_rows-append of_others left made
            ∙ rw (kept-rows rows, no_other-rows streams) (append-nil left),
      )

  -- The indexes of the streams differ from each other.
  abbrev pub distinct : List (ℕ × MediaStreamInput) → Bool
  distinct [] = true
  distinct (s ∷ streams) =
      not (any (λ (t : ℕ × MediaStreamInput). eq_ℤ s.1.stream_index t.1.stream_index) streams)
      && distinct streams

  abbrev FreeIn : List MediaStream → ℕ × MediaStreamInput → Type 0
  FreeIn rows s = any (stream_at node_id s.1.stream_index) rows ≡ false

  free-after :
      (s : ℕ × MediaStreamInput) (rows : List MediaStream) (streams : List (ℕ × MediaStreamInput))
      → any (λ (t : ℕ × MediaStreamInput). eq_ℤ s.1.stream_index t.1.stream_index) streams ≡ false
      → All (FreeIn rows) streams
      → All (FreeIn (rows ++ (stream_row node_id now s ∷ []))) streams
  free-after s rows [] apart free = tt
  free-after s rows (t ∷ streams) apart free = (
    any-append (stream_at node_id t.1.stream_index) rows (stream_row node_id now s ∷ [])
        ∙ ground (arith, free.0),
    free-after s rows streams (ground arith) free.1,
  )

  inserts :
      (streams : List (ℕ × MediaStreamInput)) (rows : List MediaStream)
      → All (λ (s : ℕ × MediaStreamInput). stream_allowed s.1 ≡ true) streams
      → distinct streams ≡ true
      → All (FreeIn rows) streams
      → (after : List MediaStream) × (insert_streams node_id true now streams rows ≡ ok after)
  inserts [] rows allowed apart free = (rows, refl)
  inserts (s ∷ streams) rows allowed apart free =
      let (after, done) =
        inserts streams (rows ++ (stream_row node_id now s ∷ [])) allowed.1 (ground arith)
          (free-after s rows streams (ground arith) free.1) in
      (after, rw (here s allowed.0 free.0) done)
    where
      here :
          (s : ℕ × MediaStreamInput)
          → stream_allowed s.1 ≡ true
          → FreeIn rows s
          → insert_stream node_id true now s rows ≡ ok (rows ++ (stream_row node_id now s ∷ []))
      here (id, t) a f = unfold insert_stream in rw (a, f) refl

  others-free :
      (streams : List (ℕ × MediaStreamInput)) (rows : List MediaStream)
      → All (FreeIn (where_rows of_others rows)) streams
  others-free [] rows = tt
  others-free (s ∷ streams) rows = (none_at rows, others-free streams rows)
    where
      none_at : (rows : List MediaStream) → FreeIn (where_rows of_others rows) s
      none_at [] = refl
      none_at (r ∷ rows) = ground (arith, none_at rows)

  -- For a node that is there it succeeds whenever no index comes twice and no stream breaks a CHECK.
  pub replace_media_streams-succeeds :
      (streams : List (ℕ × MediaStreamInput)) (rows : List MediaStream)
      → All (λ (s : ℕ × MediaStreamInput). stream_allowed s.1 ≡ true) streams
      → distinct streams ≡ true
      → (after : List MediaStream) × (replace_media_streams node_id true now streams rows
          ≡ ok after)
  unfolding replace_media_streams
  replace_media_streams-succeeds streams rows allowed apart =
      inserts streams (where_rows of_others rows) allowed apart (others-free streams rows)
