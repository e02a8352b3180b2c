-- ===== src/Header/Reassembly.antt =====
-- header.c: `header_append_field`, `header_append_value` and `header_append_complete` put the
-- pieces together in which the HTTP parser hands out a header.
use h2_client_proxy.Base.{
  true, false, Option, none, some, List, [], ◌∷◌, ◌++◌, ◌≡◌, refl, ◌∙◌, arith, append-nil,
  append_assoc, Bytes, NulFree, NulFree-append, c_str-eq_of_NulFree,
}
use h2_client_proxy.Header.{
  Header, Field, header_append_field, header_append_value, header_append_complete, extend_field,
}

-- The callbacks on_header_field and on_header_value with the bytes that they are given.
pub data Piece : Type 0 where
  of_field : Bytes → Piece
  of_value : Bytes → Piece

unfoldable pub append_piece_of : Header → Piece → Option Header
append_piece_of h (of_field s) = header_append_field h s
append_piece_of h (of_value s) = some (header_append_value h s)

unfoldable pub append_pieces : Header → List Piece → Option Header
append_pieces h [] = some h
append_pieces h (p ∷ ps) = elim (append_piece_of h p) [
  | none ↦ none
  | some h' ↦ append_pieces h' ps
]

-- A header line in pieces: at least one of the name, then at least one of the value.
pub record Pair : Type 0 where
  pub first_field : Bytes
  pub more_field : List Bytes
  pub first_value : Bytes
  pub more_value : List Bytes

abbrev pub join : List Bytes → Bytes
join [] = []
join (s ∷ ss) = s ++ join ss

abbrev pub AllNulFree : List Bytes → Type 0
AllNulFree [] = Unit {0}
AllNulFree (s ∷ ss) = NulFree s × AllNulFree ss

abbrev pub IsText : Pair → Type 0
IsText p =
    NulFree p.first_field
    × AllNulFree p.more_field
    × NulFree p.first_value
    × AllNulFree p.more_value

abbrev pub AllText : List Pair → Type 0
AllText [] = Unit {0}
AllText (p ∷ ps) = IsText p × AllText ps

abbrev pub joined : Pair → Field
joined p = record {
  field = p.first_field ++ join p.more_field;
  value = p.first_value ++ join p.more_value;
}

abbrev pub all_joined : List Pair → List Field
all_joined [] = []
all_joined (p ∷ ps) = joined p ∷ all_joined ps

abbrev pub field_pieces : List Bytes → List Piece → List Piece
field_pieces [] rest = rest
field_pieces (s ∷ ss) rest = of_field s ∷ field_pieces ss rest

abbrev pub value_pieces : List Bytes → List Piece → List Piece
value_pieces [] rest = rest
value_pieces (s ∷ ss) rest = of_value s ∷ value_pieces ss rest

abbrev pub pieces : List Pair → List Piece
pieces [] = []
pieces (p ∷ ps) =
    of_field p.first_field
    ∷ field_pieces p.more_field (of_value p.first_value ∷ value_pieces p.more_value (pieces ps))

-- Nothing is half read.
pub record IsSettled (h : Header) : Type 0 where
  pub no_field : h.last_field ≡ none
  pub no_value : h.last_value ≡ none
  pub not_value : h.is_last_value ≡ false

-- `h` with a name of which `f` is read.
abbrev in_field : Header → Bytes → Header
in_field h f = record h { last_field = some f; is_last_value = false }

abbrev in_value : Header → Bytes → Bytes → Header
in_value h f v = record h { last_field = some f; last_value = some v; is_last_value = true }

append_field-settle :
    (s h : Header) (piece : Bytes)
    → header_append_complete s ≡ some h
    → header_append_field s piece ≡ some (extend_field piece h)
unfolding header_append_field
append_field-settle s h piece e = ground arith

field_pieces_run :
    (ss : List Bytes) (h : Header) (f : Bytes) (rest : List Piece)
    → NulFree f
    → AllNulFree ss
    → append_pieces (in_field h f) (field_pieces ss rest)
      ≡ append_pieces (in_field h (f ++ join ss)) rest
unfolding append_pieces append_piece_of header_append_field
field_pieces_run [] h f rest nf a = rw append-nil
field_pieces_run (s ∷ ss) h f rest nf a =
    rw (c_str-eq_of_NulFree (f ++ s) (NulFree-append f s nf a.0))
      (field_pieces_run ss h (f ++ s) rest (NulFree-append f s nf a.0) a.1 ∙ rw append_assoc)

value_pieces_run :
    (ss : List Bytes) (h : Header) (f v : Bytes) (rest : List Piece)
    → NulFree v
    → AllNulFree ss
    → append_pieces (in_value h f v) (value_pieces ss rest)
      ≡ append_pieces (in_value h f (v ++ join ss)) rest
unfolding append_pieces append_piece_of header_append_value
value_pieces_run [] h f v rest nf a = rw append-nil
value_pieces_run (s ∷ ss) h f v rest nf a =
    rw (c_str-eq_of_NulFree (v ++ s) (NulFree-append v s nf a.0))
      (value_pieces_run ss h f (v ++ s) rest (NulFree-append v s nf a.0) a.1 ∙ rw append_assoc)

-- The end of the header: on_headers_complete calls `header_append_complete`.
abbrev pub complete : Option Header → Option Header
complete none = none
complete (some h) = header_append_complete h

unfoldable pub read_header : Header → List Piece → Option Header
unfolding append_pieces append_piece_of
read_header h ps = complete (append_pieces h ps)

-- The first piece of a name ends the pair before it.
first_piece :
    (s h : Header) (piece : Bytes) (rest : List Piece)
    → header_append_complete s ≡ some h
    → IsSettled h
    → NulFree piece
    → append_pieces s (of_field piece ∷ rest) ≡ append_pieces (in_field h piece) rest
unfolding append_pieces append_piece_of extend_field
first_piece s h piece rest e v nf =
    ground (arith, append_field-settle s h piece e, v.no_field, c_str-eq_of_NulFree piece nf)

first_value_piece :
    (h : Header) (f piece : Bytes) (rest : List Piece)
    → IsSettled h
    → NulFree piece
    → append_pieces (in_field h f) (of_value piece ∷ rest) ≡ append_pieces (in_value h f piece) rest
unfolding append_pieces append_piece_of header_append_value
first_value_piece h f piece rest v nf = rw (v.no_value, c_str-eq_of_NulFree piece nf)

pair_run :
    (p : Pair) (s h : Header) (rest : List Pair)
    → header_append_complete s ≡ some h
    → IsSettled h
    → IsText p
    → append_pieces s (pieces (p ∷ rest))
      ≡ append_pieces (in_value h (joined p).field (joined p).value) (pieces rest)
pair_run p s h rest e v (nf, af, nv, av) =
    first_piece s h p.first_field _ e v nf
    ∙ field_pieces_run p.more_field h p.first_field _ nf af
    ∙ first_value_piece h _ p.first_value _ v nv
    ∙ value_pieces_run p.more_value h _ p.first_value _ nv av

abbrev with_fields : Header → List Field → Header
with_fields h fs = record h {
  last_field = none;
  last_value = none;
  is_last_value = false;
  list_headers = h.list_headers ++ fs;
}

read_pairs :
    (ps : List Pair) (s h : Header)
    → header_append_complete s ≡ some h
    → IsSettled h
    → AllText ps
    → read_header s (pieces ps) ≡ some (with_fields h (all_joined ps))
unfolding read_header
read_pairs [] s h e v t = ground (arith, append-nil h.list_headers)
read_pairs (p ∷ ps) s h e v t = rw (pair_run p s h ps e v t.0) (
    read_pairs ps (in_value h (joined p).field (joined p).value) (with_fields h (joined p ∷ []))
      (unfold header_append_complete in refl)
      (record { no_field = refl; no_value = refl; not_value = refl }) t.1
    ∙ rw append_assoc)

-- From a header with nothing half read, whatever pieces the parser cuts the names and the values
-- of some pairs into (at least one piece each, none with a 0 byte), no assertion fails, and the
-- header then holds, behind the fields it had, one field for each pair, in order, whose name and
-- value are the joined pieces. Nothing is left half read, and nothing else changes.
pub read_header-pieces :
    (ps : List Pair) (h : Header)
    → IsSettled h
    → AllText ps
    → read_header h (pieces ps)
      ≡ some (record h {
        last_field = none;
        last_value = none;
        is_last_value = false;
        list_headers = h.list_headers ++ all_joined ps;
      })
unfolding header_append_complete
read_header-pieces ps h v t = read_pairs ps h h (rw v.not_value) v t
