-- ===== src/Distribution/RoundTrip.antt =====
-- A description that is printed in one of the accepted syntaxes is parsed to itself.
use cql_stress.Common.{
  ℕ, ◌≡◌, refl, ap, ◌∙◌, Bool, true, false, List, [], ◌∷◌, ◌++◌, ok, arith, map, ◌==◌, ◌≢◌,
}
use cql_stress.Text.{Text, starts_with, strip_prefix, is_whitespace}
use cql_stress.Text.Split.{
  join, Lacks, AllLack, split-join, split_once-append, split_once-none, split_once_twice-append,
  split_once_twice-none, strip_suffix-append,
}
use cql_stress.Text.Trim.{
  trim, IsTrimmed, trim-solid, trim_end, trim_end-solid, head-IsTrimmed, trim_end-IsTrimmed,
}
use cql_stress.Distribution.{
  SyntaxFlavor, classic_or_short, Description, decompose_name_and_args, decompose_args,
  args_at_dots, classic_name_and_args, short_name_and_args, parse_stripped, strip_tilde,
  parse_description,
}

-- a..b,c,d
unfoldable pub print_args : List Text → Text
print_args [] = []
print_args (a ∷ []) = a
print_args (a ∷ b ∷ args) = a ++ b'.' ∷ b'.' ∷ join b',' (b ∷ args)

abbrev pub AllTrimmed : List Text → Type 0
AllTrimmed [] = Unit {0}
AllTrimmed (a ∷ args) = IsTrimmed a × AllTrimmed args

-- What the syntax can hold: the first argument has no dot, a lone one is not empty, and no
-- argument has a comma or white space at an end.
abbrev pub ArePrintable : List Text → Type 0
ArePrintable [] = Unit {0}
ArePrintable (a ∷ []) = IsTrimmed a × (a ≢ []) × Lacks b'.' a × Lacks b',' a
ArePrintable (a ∷ b ∷ args) =
    IsTrimmed a × Lacks b'.' a × AllTrimmed (b ∷ args) × AllLack b',' (b ∷ args)

map-trim : (args : List Text) → AllTrimmed args → map trim args ≡ args
map-trim [] h = refl
map-trim (a ∷ args) h = rw (h.0) (rw (map-trim args h.1))

pub decompose_args-print_args :
    (args : List Text) → ArePrintable args → decompose_args (print_args args) ≡ ok args
unfolding decompose_args print_args
decompose_args-print_args [] h = ap (args_at_dots []) (split_once_twice-none b'.' [] refl)
decompose_args-print_args ([] ∷ []) h = absurd (h.1 refl)
decompose_args-print_args ((c ∷ a) ∷ []) h =
    ap (args_at_dots (c ∷ a)) (split_once_twice-none b'.' (c ∷ a) h.2) ∙ ground (arith, h.0, h.3)
decompose_args-print_args (a ∷ b ∷ args) h =
    ap (args_at_dots (print_args (a ∷ b ∷ args)))
      (split_once_twice-append b'.' a (join b',' (b ∷ args)) h.1)
    ∙ rw (split-join b',' b args (h.3)) (rw (h.0) (rw (map-trim (b ∷ args) (h.2))))

-- The texts of a description. `classic` is name(args); `classic_or_short` also has name:args.
pub print_tilde : Bool → Text → Text
print_tilde true s = b'~' ∷ s
print_tilde false s = s

pub print_classic : Description → Text
unfolding print_args print_tilde
print_classic d = print_tilde d.inverted (d.name ++ b'(' ∷ (print_args d.args ++ b')' ∷ []))

pub print_short : Description → Text
unfolding print_args print_tilde
print_short d = print_tilde d.inverted (d.name ++ b':' ∷ print_args d.args)

-- A name that the syntax can hold.
abbrev pub IsName : Text → Type 0
IsName name = IsTrimmed name × Lacks b'(' name × (starts_with b'~' name ≡ false)

decompose-classic :
    (name args : Text) (flavor : SyntaxFlavor)
    → IsTrimmed name
    → Lacks b'(' name
    → decompose_name_and_args (name ++ b'(' ∷ (args ++ b')' ∷ [])) flavor ≡ ok (name, args)
unfolding decompose_name_and_args
decompose-classic name args flavor h k =
    ap (classic_name_and_args _ flavor) (split_once-append b'(' name (args ++ b')' ∷ []) k)
    ∙ rw (strip_suffix-append b')' args) (rw h)

decompose-short :
    (name args : Text)
    → IsTrimmed name
    → Lacks b':' name
    → Lacks b'(' (name ++ b':' ∷ args)
    → decompose_name_and_args (name ++ b':' ∷ args) classic_or_short ≡ ok (name, args)
unfolding decompose_name_and_args
decompose-short name args h k l =
    ap (classic_name_and_args _ classic_or_short) (split_once-none b'(' (name ++ b':' ∷ args) l)
    ∙ ap (short_name_and_args classic_or_short) (split_once-append b':' name args k)
    ∙ rw (h)

-- the whole text has no white space at its ends
print_tilde-IsTrimmed :
    (inverted : Bool) (name : Text) (sep : ℕ) (rest : Text)
    → IsTrimmed name
    → is_whitespace sep ≡ false
    → trim_end rest ≡ rest
    → IsTrimmed (print_tilde inverted (name ++ sep ∷ rest))
unfolding print_tilde
print_tilde-IsTrimmed true name sep rest h k l =
    trim-solid b'~' (name ++ sep ∷ rest) (unfold is_whitespace in refl)
      (trim_end-solid (b'~' ∷ name) sep rest k l)
print_tilde-IsTrimmed false [] sep rest h k l =
    trim-solid sep rest k (trim_end-solid [] sep rest k l)
print_tilde-IsTrimmed false (c ∷ name) sep rest h k l =
    trim-solid c (name ++ sep ∷ rest) (head-IsTrimmed c name h)
      (trim_end-solid (c ∷ name) sep rest k l)

strip_tilde-print_tilde :
    (inverted : Bool) (s : Text)
    → starts_with b'~' s ≡ false
    → strip_tilde (print_tilde inverted s) (strip_prefix b'~' (print_tilde inverted s))
      ≡ (s, inverted)
unfolding strip_tilde print_tilde
strip_tilde-print_tilde true s h = refl
strip_tilde-print_tilde false [] h = refl
strip_tilde-print_tilde false (c ∷ s) h = rw h

starts_with-name :
    (name : Text) (sep : ℕ) (rest : Text)
    → starts_with b'~' name ≡ false
    → (sep == b'~') ≡ false
    → starts_with b'~' (name ++ sep ∷ rest) ≡ false
starts_with-name [] sep rest h k = k
starts_with-name (c ∷ name) sep rest h k = h

-- A description whose name and arguments the syntax can hold, inverted or not, is read back from
-- the text name(a..b,c), under either flavor.
pub parse_description-print_classic :
    (d : Description) (flavor : SyntaxFlavor)
    → IsName d.name
    → ArePrintable d.args
    → parse_description (print_classic d) flavor ≡ ok d
unfolding parse_description print_classic trim_end
parse_description-print_classic d flavor h k =
    let rest = print_args d.args ++ b')' ∷ [] in
    rw
      (print_tilde-IsTrimmed d.inverted d.name b'(' rest (h.0) (unfold is_whitespace in refl)
        (trim_end-solid (print_args d.args) b')' [] (unfold is_whitespace in refl) refl))
      (ap (parse_stripped flavor) (
          strip_tilde-print_tilde d.inverted (d.name ++ b'(' ∷ rest)
            (starts_with-name d.name b'(' rest (h.2) refl))
        ∙ rw (decompose-classic d.name (print_args d.args) flavor h.0 h.1)
            (rw (decompose_args-print_args d.args k)))

join-trim_end :
    (a : Text) (args : List Text)
    → AllTrimmed (a ∷ args)
    → trim_end (join b',' (a ∷ args)) ≡ join b',' (a ∷ args)
unfolding join
join-trim_end a [] h = trim_end-IsTrimmed a h.0
join-trim_end a (b ∷ args) h =
    trim_end-solid a b',' (join b',' (b ∷ args)) (unfold is_whitespace in refl)
      (join-trim_end b args h.1)

print_args-trim_end :
    (args : List Text) → ArePrintable args → trim_end (print_args args) ≡ print_args args
unfolding print_args trim_end
print_args-trim_end [] h = refl
print_args-trim_end (a ∷ []) h = trim_end-IsTrimmed a h.0
print_args-trim_end (a ∷ b ∷ args) h =
    trim_end-solid a b'.' (b'.' ∷ join b',' (b ∷ args)) (unfold is_whitespace in refl) (
      trim_end-solid [] b'.' (join b',' (b ∷ args)) (unfold is_whitespace in refl)
        (join-trim_end b args h.2))

-- The shorter text name:a..b,c is read back too, where it is allowed, if it has no opening
-- parenthesis and the name no colon.
pub parse_description-print_short :
    (d : Description)
    → IsName d.name
    → Lacks b':' d.name
    → Lacks b'(' (d.name ++ b':' ∷ print_args d.args)
    → ArePrintable d.args
    → parse_description (print_short d) classic_or_short ≡ ok d
unfolding parse_description print_short
parse_description-print_short d h c l k =
    let rest = print_args d.args in
    rw
      (print_tilde-IsTrimmed d.inverted d.name b':' rest (h.0) (unfold is_whitespace in refl)
        (print_args-trim_end d.args k))
      (ap (parse_stripped classic_or_short) (
          strip_tilde-print_tilde d.inverted (d.name ++ b':' ∷ rest)
            (starts_with-name d.name b':' rest (h.2) refl))
        ∙ rw (decompose-short d.name rest h.0 c l) (rw (decompose_args-print_args d.args k)))
