-- ===== src/Engine/Commands.antt =====
-- Commands of internal/model/model.go, and when two of them are equivalent. What a node holds beside its parts and its places in the source is one value,
-- its facts, which also say which slices are nil, the links apart, whose emptiness is all that is
-- compared; `reflect.DeepEqual` of facts is a parameter.
pub mod Origin
pub mod Plain
pub mod Same
mod Examples
use Prim.Native.String.{String}
use text.Mathlib.Text.{◌==◌ as str_eq}
use flowbaton.Prelude.{List, [], ◌∷◌, Bool, true, false, ◌&&◌, Option, none, some}
use flowbaton.Prelude.Int.{ℤ, ◌==ℤ◌}
use flowbaton.Engine.Results.{same_list, same_option, same_map}

pub record Position : Type 0 where
  pub line : ℤ
  pub column : ℤ
  pub offset : ℤ

pub record SourceInfo : Type 0 where
  pub path : String
  pub start : Position
  pub end : Position

-- `FieldSources`, a map that may be nil.
abbrev pub FieldSources : Type 0
FieldSources = Option (List (String × SourceInfo))

-- A selector with its places, the selectors below, above, left_of, right_of, contains_child and
-- child_of, and those of its descendants.
mutual
  pub data ElementSelector (Facts : Type 0) : Type 0 where
    selector :
        Facts
        → SourceInfo
        → FieldSources
        → OptionalSelector Facts
        → OptionalSelector Facts
        → OptionalSelector Facts
        → OptionalSelector Facts
        → OptionalSelector Facts
        → OptionalSelector Facts
        → Selectors Facts
        → ElementSelector Facts

  pub data OptionalSelector (Facts : Type 0) : Type 0 where
    no_selector : OptionalSelector Facts
    some_selector : ElementSelector Facts → OptionalSelector Facts

  pub data Selectors (Facts : Type 0) : Type 0 where
    no_more : Selectors Facts
    more : ElementSelector Facts → Selectors Facts → Selectors Facts

pub record Condition (Facts : Type 0) : Type 0 where
  pub facts : Facts
  pub source : SourceInfo
  pub field_sources : FieldSources
  pub visible : OptionalSelector Facts
  pub not_visible : OptionalSelector Facts

-- `FileLink`: its kind and path, and where it was resolved.
pub record FileLink (Facts : Type 0) : Type 0 where
  pub facts : Facts
  pub resolved_path : String
  pub source : SourceInfo

mutual
  pub data Command (Facts : Type 0) : Type 0 where
    command :
        Facts
        → SourceInfo
        → OptionalSelector Facts
        → Option (Condition Facts)
        → Arguments Facts
        → Commands Facts
        → List (FileLink Facts)
        → Command Facts

  -- Arguments of another type than a Config are facts.
  pub data Arguments (Facts : Type 0) : Type 0 where
    plain : Facts → Arguments Facts
    config_value : Config Facts → Arguments Facts
    nil_config : Arguments Facts
    config_pointer : Config Facts → Arguments Facts

  -- A Config with its hooks, onFlowStart and onFlowComplete.
  pub data Config (Facts : Type 0) : Type 0 where
    config : Facts → SourceInfo → FieldSources → Commands Facts → Commands Facts → Config Facts

  pub data Commands (Facts : Type 0) : Type 0 where
    no_commands : Commands Facts
    next_command : Command Facts → Commands Facts → Commands Facts

module _ {Facts : Type 0} (deep_equal : Facts → Facts → Bool) where
  unfoldable mutual
    -- `reflect.DeepEqual` of selectors behind `withoutSelectorSources`.
    pub equivalent_selector : ElementSelector Facts → ElementSelector Facts → Bool
    equivalent_selector (selector f s m b a l r c o d) (selector f' s' m' b' a' l' r' c' o' d') =
        ((deep_equal f f' && equivalent_optional b b')
          && (equivalent_optional a a' && equivalent_optional l l'))
        && ((equivalent_optional r r' && equivalent_optional c c')
            && (equivalent_optional o o' && equivalent_selectors d d'))

    pub equivalent_optional : OptionalSelector Facts → OptionalSelector Facts → Bool
    equivalent_optional no_selector no_selector = true
    equivalent_optional (some_selector s) (some_selector t) = equivalent_selector s t
    equivalent_optional _ _ = false

    pub equivalent_selectors : Selectors Facts → Selectors Facts → Bool
    equivalent_selectors no_more no_more = true
    equivalent_selectors (more s ss) (more t ts) =
        equivalent_selector s t && equivalent_selectors ss ts
    equivalent_selectors _ _ = false

  abbrev pub equivalent_condition : Condition Facts → Condition Facts → Bool
  equivalent_condition a b =
      deep_equal a.facts b.facts
      && (equivalent_optional a.visible b.visible
          && equivalent_optional a.not_visible b.not_visible)

  abbrev pub equivalent_link : FileLink Facts → FileLink Facts → Bool
  equivalent_link a b = deep_equal a.facts b.facts

  unfoldable mutual
    unfolding equivalent_optional

    -- `Equivalent`
    pub equivalent : Command Facts → Command Facts → Bool
    equivalent (command f s e c a cs ls) (command f' s' e' c' a' cs' ls') =
        ((deep_equal f f' && equivalent_optional e e')
          && (same_option equivalent_condition c c' && equivalent_arguments a a'))
        && (equivalent_commands cs cs' && same_list equivalent_link ls ls')

    pub equivalent_arguments : Arguments Facts → Arguments Facts → Bool
    equivalent_arguments (plain f) (plain g) = deep_equal f g
    equivalent_arguments (config_value c) (config_value d) = equivalent_config c d
    equivalent_arguments nil_config nil_config = true
    equivalent_arguments (config_pointer c) (config_pointer d) = equivalent_config c d
    equivalent_arguments _ _ = false

    pub equivalent_config : Config Facts → Config Facts → Bool
    equivalent_config (config f s m on_start on_complete) (config f' s' m' on_start' on_complete') =
        deep_equal f f'
        && (equivalent_commands on_start on_start' && equivalent_commands on_complete on_complete')

    pub equivalent_commands : Commands Facts → Commands Facts → Bool
    equivalent_commands no_commands no_commands = true
    equivalent_commands (next_command c cs) (next_command d ds) =
        equivalent c d && equivalent_commands cs ds
    equivalent_commands _ _ = false
