-- ===== src/Query/Operators.antt =====
-- query/operators.py
use recoverx_cli.Prelude.{◌≡◌, refl, Option, none, some, if◌then◌else◌}
use recoverx_cli.Utils.Text.{Text, text, text_eq}

pub data Operator : Type 0 where
  eq neq gt gte lt lte contains not_contains starts_with ends_with in_list not_in_list like :
      Operator

-- the member's value
unfoldable pub value : Operator → Text
value eq = text "=="
value neq = text "!="
value gt = text ">"
value gte = text ">="
value lt = text "<"
value lte = text "<="
value contains = text "contains"
value not_contains = text "!contains"
value starts_with = text "starts"
value ends_with = text "ends"
value in_list = text "in"
value not_in_list = text "!in"
value like = text "~"

-- `none` is the ValueError
unfoldable pub from_string : Text → Option Operator
unfolding text_eq
from_string s =
    if text_eq s (text "==")
    then some eq
    else if text_eq s (text "!=")
    then some neq
    else if text_eq s (text ">")
    then some gt
    else if text_eq s (text ">=")
    then some gte
    else if text_eq s (text "<")
    then some lt
    else if text_eq s (text "<=")
    then some lte
    else if text_eq s (text "contains")
    then some contains
    else if text_eq s (text "!contains")
    then some not_contains
    else if text_eq s (text "starts")
    then some starts_with
    else if text_eq s (text "ends")
    then some ends_with
    else if text_eq s (text "in")
    then some in_list
    else if text_eq s (text "!in")
    then some not_in_list
    else if text_eq s (text "~")
    then some like
    else none

-- A member's value is read back as the member.
pub from_string-value : (op : Operator) → from_string (value op) ≡ some op
unfolding from_string value
from_string-value eq = refl
from_string-value neq = refl
from_string-value gt = refl
from_string-value gte = refl
from_string-value lt = refl
from_string-value lte = refl
from_string-value contains = refl
from_string-value not_contains = refl
from_string-value starts_with = refl
from_string-value ends_with = refl
from_string-value in_list = refl
from_string-value not_in_list = refl
from_string-value like = refl
