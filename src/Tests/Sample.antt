-- ===== src/Tests/Sample.antt =====
-- A JSON library in small, which satisfies the laws: documents as trees, written as a list of
-- tokens.
use Prim.Native.String.{String}
use Prim.Native.Char.{Char, code}
use valent.Prelude.{
  ℕ, zero, suc, ◌+◌, ◌-◌, ◌*◌, ◌/◌, ◌%◌, ◌<◌, ◌≡◌, ◌≢◌, refl, ap, ◌∙◌, Bool, true, false, List, [],
  ◌∷◌, ◌++◌, Option, none, some, str_eq, arith, leb, ◌==◌, if◌then◌else◌, All,
}
use mathlib.Core.List.{append_assoc}
use valent.Prelude.Int.{ℤ, pos, negsuc}
use valent.Packet.Json.{
  JsonGlib, JsonLaws, NodeType, object, array, value, null, ValueType, int64, boolean, string,
  other,
}
use valent.Tests.Chars.{to_char, to_char-code}

pub data Node : Type 0 where
  empty nothing no_elements : Node
  with_member : Node → String → Node → Node
  with_element : Node → Node → Node
  int : ℤ → Node
  bool : Bool → Node
  text : String → Node

abbrev pub node_type : Node → NodeType
node_type empty = object
node_type (with_member n k m) = node_type n
node_type nothing = null
node_type no_elements = array
node_type (with_element x xs) = array
node_type (int v) = value
node_type (bool v) = value
node_type (text v) = value

abbrev value_type : Node → ValueType
value_type (int v) = int64
value_type (bool v) = boolean
value_type (text v) = string
value_type _ = other

abbrev get_member : Node → String → Option Node
get_member (with_member n k m) name = if str_eq k name then some m else get_member n name
get_member _ name = none

abbrev get_elements : Node → List Node
get_elements (with_element x xs) = x ∷ get_elements xs
get_elements _ = []

abbrev get_int : Node → ℤ
get_int (int v) = v
get_int _ = pos 0

abbrev get_boolean : Node → Bool
get_boolean (bool v) = v
get_boolean _ = false

abbrev get_string : Node → String
get_string (text v) = v
get_string _ = ""

-- A stack of texts and nodes.
pub data Item : Type 0 where
  spelled : String → Item
  built : Node → Item

-- Tokens are numbers from 11 on; those from 20 on carry a number.
abbrev text_tokens : String → List ℕ
text_tokens String.[] = 11 ∷ []
text_tokens (String.◌∷◌ c s) = text_tokens s ++ (20 + 4 * code c) ∷ []

abbrev int_token : ℤ → ℕ
int_token (pos n) = 21 + 4 * n
int_token (negsuc n) = 22 + 4 * n

abbrev bool_token : Bool → ℕ
bool_token true = 23
bool_token false = 27

abbrev tokens : Node → List ℕ
tokens empty = 12 ∷ []
tokens nothing = 13 ∷ []
tokens no_elements = 14 ∷ []
tokens (with_member n k m) = tokens n ++ (tokens m ++ (text_tokens k ++ 15 ∷ []))
tokens (with_element x xs) = tokens xs ++ (tokens x ++ 16 ∷ [])
tokens (int v) = int_token v ∷ []
tokens (bool v) = bool_token v ∷ []
tokens (text v) = text_tokens v ++ 17 ∷ []

abbrev pub join : List Item → List Item
join (spelled k ∷ built m ∷ built n ∷ st) = built (with_member n k m) ∷ st
join st = st

abbrev pub extend : List Item → List Item
extend (built x ∷ built xs ∷ st) = built (with_element x xs) ∷ st
extend st = st

abbrev pub quote_text : List Item → List Item
quote_text (spelled k ∷ st) = built (text k) ∷ st
quote_text st = st

abbrev pub spell : Char → List Item → List Item
spell c (spelled k ∷ st) = spelled (String.◌∷◌ c k) ∷ st
spell c st = st

-- A token with a number `q` and a kind `r`.
abbrev numbered : ℕ → ℕ → List Item → List Item
numbered q zero st = spell (to_char q) st
numbered q (suc zero) st = built (int (pos q)) ∷ st
numbered q (suc (suc zero)) st = built (int (negsuc q)) ∷ st
numbered q _ st = built (bool (q == 0)) ∷ st

abbrev act : ℕ → List Item → List Item
act t st =
    if leb 20 t
    then numbered ((t - 20) / 4) ((t - 20) % 4) st
    else if t == 11
    then spelled "" ∷ st
    else if t == 12
    then built empty ∷ st
    else if t == 13
    then built nothing ∷ st
    else if t == 14
    then built no_elements ∷ st
    else if t == 15
    then join st
    else if t == 16
    then extend st
    else quote_text st

abbrev finish : List Item → Option (Option Node)
finish [] = some none
finish (built n ∷ []) = some (some n)
finish _ = none

abbrev decode : List ℕ → List Item → Option (Option Node)
decode [] st = none
decode (t ∷ ts) st = let rest = decode ts (act t st) in if t == 10 then finish st else rest

abbrev pub sample : JsonGlib
sample = record {
  Node = Node;
  Double = ℕ;
  node_type = node_type;
  value_type = value_type;
  get_member = get_member;
  get_elements = get_elements;
  get_int = get_int;
  get_double = λ _. 0;
  get_boolean = get_boolean;
  get_string = get_string;
  new_object = empty;
  int_node = int;
  boolean_node = bool;
  string_node = text;
  set_member = with_member;
  generate = tokens;
  parse = λ l. decode l [];
}

act-numbered : (q r : ℕ) (st : List Item) → r < 4 → act (20 + r + 4 * q) st ≡ numbered q r st
act-numbered q r st h =
    let large : leb 20 (20 + r + 4 * q) ≡ true = ground arith in
    let quotient : (20 + r + 4 * q - 20) / 4 ≡ q = omega arith in
    let remainder : (20 + r + 4 * q - 20) % 4 ≡ r = omega arith in
    rw (large, quotient, remainder) refl

decode_next :
    (t : ℕ) (ts : List ℕ) (st : List Item) → 10 < t → decode (t ∷ ts) st ≡ decode ts (act t st)
decode_next t ts st h = let more : (t == 10) ≡ false = ground arith in rw more refl

decode-text_tokens :
    (s : String) (ts : List ℕ) (st : List Item)
    → decode (text_tokens s ++ ts) st ≡ decode ts (spelled s ∷ st)
decode-text_tokens String.[] ts st = refl
decode-text_tokens (String.◌∷◌ c s) ts st =
    ap (λ (l : List ℕ). decode l st) (append_assoc (text_tokens s) ((20 + 4 * code c) ∷ []) ts)
    ∙ decode-text_tokens s ((20 + 4 * code c) ∷ ts) st
    ∙ decode_next (20 + 4 * code c) ts (spelled s ∷ st) (omega arith)
    ∙ ap (decode ts) (act-numbered (code c) 0 (spelled s ∷ st) (omega arith))
    ∙ ap (λ (d : Char). decode ts (spelled (String.◌∷◌ d s) ∷ st)) (to_char-code c)

decode-int_token :
    (v : ℤ) (ts : List ℕ) (st : List Item)
    → decode (int_token v ∷ ts) st ≡ decode ts (built (int v) ∷ st)
decode-int_token (pos n) ts st =
    decode_next (21 + 4 * n) ts st (omega arith)
    ∙ ap (decode ts) (act-numbered n 1 st (omega arith))
decode-int_token (negsuc n) ts st =
    decode_next (22 + 4 * n) ts st (omega arith)
    ∙ ap (decode ts) (act-numbered n 2 st (omega arith))

decode-tokens :
    (n : Node) (ts : List ℕ) (st : List Item)
    → decode (tokens n ++ ts) st ≡ decode ts (built n ∷ st)
decode-tokens empty ts st = refl
decode-tokens nothing ts st = refl
decode-tokens no_elements ts st = refl
decode-tokens (int v) ts st = decode-int_token v ts st
decode-tokens (bool true) ts st = refl
decode-tokens (bool false) ts st = refl
decode-tokens (text v) ts st =
    ap (λ (l : List ℕ). decode l st) (append_assoc (text_tokens v) (17 ∷ []) ts)
    ∙ decode-text_tokens v (17 ∷ ts) st
decode-tokens (with_element x xs) ts st =
    ap (λ (l : List ℕ). decode l st) (append_assoc (tokens xs) (tokens x ++ 16 ∷ []) ts)
    ∙ decode-tokens xs ((tokens x ++ 16 ∷ []) ++ ts) st
    ∙ ap (λ (l : List ℕ). decode l (built xs ∷ st)) (append_assoc (tokens x) (16 ∷ []) ts)
    ∙ decode-tokens x (16 ∷ ts) (built xs ∷ st)
decode-tokens (with_member n k m) ts st =
    ap (λ (l : List ℕ). decode l st)
      (append_assoc (tokens n) (tokens m ++ (text_tokens k ++ 15 ∷ [])) ts)
    ∙ decode-tokens n ((tokens m ++ (text_tokens k ++ 15 ∷ [])) ++ ts) st
    ∙ ap (λ (l : List ℕ). decode l (built n ∷ st))
        (append_assoc (tokens m) (text_tokens k ++ 15 ∷ []) ts)
    ∙ decode-tokens m ((text_tokens k ++ 15 ∷ []) ++ ts) (built n ∷ st)
    ∙ ap (λ (l : List ℕ). decode l (built m ∷ built n ∷ st))
        (append_assoc (text_tokens k) (15 ∷ []) ts)
    ∙ decode-text_tokens k (15 ∷ ts) (built m ∷ built n ∷ st)

abbrev OneLine : List ℕ → Type 0
OneLine l = All (λ b. b ≢ 10) l

OneLine-append : (l m : List ℕ) → OneLine l → OneLine m → OneLine (l ++ m)
OneLine-append [] m a b = b
OneLine-append (x ∷ l) m (h, a) b = (h, OneLine-append l m a b)

text_tokens-OneLine : (s : String) → OneLine (text_tokens s)
text_tokens-OneLine String.[] = (omega arith, tt)
text_tokens-OneLine (String.◌∷◌ c s) =
    OneLine-append (text_tokens s) _ (text_tokens-OneLine s) (omega arith, tt)

tokens-OneLine : (n : Node) → OneLine (tokens n)
tokens-OneLine empty = (omega arith, tt)
tokens-OneLine nothing = (omega arith, tt)
tokens-OneLine no_elements = (omega arith, tt)
tokens-OneLine (int (pos n)) = (omega arith, tt)
tokens-OneLine (int (negsuc n)) = (omega arith, tt)
tokens-OneLine (bool true) = (omega arith, tt)
tokens-OneLine (bool false) = (omega arith, tt)
tokens-OneLine (text v) = OneLine-append (text_tokens v) _ (text_tokens-OneLine v) (omega arith, tt)
tokens-OneLine (with_element x xs) =
    OneLine-append (tokens xs) _ (tokens-OneLine xs)
      (OneLine-append (tokens x) _ (tokens-OneLine x) (omega arith, tt))
tokens-OneLine (with_member n k m) = OneLine-append (tokens n) _ (tokens-OneLine n) (
    OneLine-append (tokens m) _ (tokens-OneLine m)
      (OneLine-append (text_tokens k) _ (text_tokens-OneLine k) (omega arith, tt)))

pub sample_laws : JsonLaws sample
sample_laws = record {
  node_type-new_object = refl;
  get_member-new_object = λ name. refl;
  value_type-int_node = λ v. refl;
  get_int-int_node = λ v. refl;
  value_type-boolean_node = λ v. refl;
  node_type-boolean_node = λ v. refl;
  get_boolean-boolean_node = λ v. refl;
  value_type-string_node = λ v. refl;
  get_string-string_node = λ v. refl;
  node_type-set_member = λ n name m. refl;
  get_member-set_member = λ n name other_name m h. refl;
  generate_one_line = tokens-OneLine;
  parse-generate = λ n. decode-tokens n (10 ∷ []) [];
}
