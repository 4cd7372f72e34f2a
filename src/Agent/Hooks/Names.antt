-- ===== src/Agent/Hooks/Names.antt =====
-- agent/hook.rs: the names of the events.
use openjarvis.Base.{
  Text, List, [], ◌∷◌, ok, ◌≡◌, ◌↔◌, refl, arith, All, text_eq, text_eq_iff, sym, subst,
}
use openjarvis.Agent.Hooks.{HookKind, as_str, hook_event_kind_from_name, match_name, kind_table}

from_name-as_str : (k : HookKind) → hook_event_kind_from_name (as_str k) ≡ ok k
unfolding hook_event_kind_from_name as_str text_eq
from_name-as_str HookKind.stop = refl
from_name-as_str _ = refl

match_name_sound :
    (name : Text) (arms : List (Text × HookKind)) (k : HookKind)
    → All (λ a. a.0 ≡ as_str a.1) arms
    → match_name name arms ≡ ok k
    → name ≡ as_str k
unfolding match_name
match_name_sound name [] k a h = ground arith
match_name_sound name ((s, j) ∷ arms) k a h =
    ground (arith, text_eq_iff name s, match_name_sound name arms k a.1)

table_sound : All (λ a. a.0 ≡ as_str a.1) kind_table
unfolding as_str
table_sound = ground arith

-- A name is read as a kind of event exactly if it is that kind's own name.
pub hook_event_kind_from_name_lem :
    (name : Text) (k : HookKind) → (hook_event_kind_from_name name ≡ ok k) ↔ (name ≡ as_str k)
unfolding hook_event_kind_from_name
hook_event_kind_from_name_lem name k = (
  match_name_sound name kind_table k table_sound,
  λ e. subst (λ n. hook_event_kind_from_name n ≡ ok k) (sym e) (from_name-as_str k),
)
