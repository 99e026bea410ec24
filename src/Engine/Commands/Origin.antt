-- ===== src/Engine/Commands/Origin.antt =====
-- When internal/engine/result_ledger.go takes two commands for one snapshot.
use text.Mathlib.Text.{◌==◌ as str_eq}
use flowbaton.Prelude.{Bool, true, false, ◌&&◌}
use flowbaton.Prelude.Int.{◌==ℤ◌}
use flowbaton.Engine.Results.{same_list, same_option, same_map}
use flowbaton.Engine.Commands.{
  Position, SourceInfo, FieldSources, ElementSelector, selector, OptionalSelector, no_selector,
  some_selector, Selectors, no_more, more, Condition, FileLink, Command, command, Arguments, plain,
  config_value, nil_config, config_pointer, Config, config, Commands, no_commands, next_command,
  equivalent,
}

abbrev pub same_position : Position → Position → Bool
same_position a b = (a.line ==ℤ b.line && a.column ==ℤ b.column) && a.offset ==ℤ b.offset

unfoldable pub same_source : SourceInfo → SourceInfo → Bool
same_source a b =
    str_eq a.path b.path && (same_position a.start b.start && same_position a.end b.end)

unfoldable pub same_source_map : FieldSources → FieldSources → Bool
unfolding same_source
same_source_map a b = same_option (same_map same_source) a b

module _ {Facts : Type 0} where
  unfoldable mutual
    unfolding same_source same_source_map

    -- `sameSelectorOrigin`
    pub same_selector_origin : ElementSelector Facts → ElementSelector Facts → Bool
    same_selector_origin (selector f s m b a l r c o d) (selector f' s' m' b' a' l' r' c' o' d') =
        ((same_source s s' && same_source_map m m')
          && ((same_optional_origin b b' && same_optional_origin a a')
              && (same_optional_origin l l' && same_optional_origin r r')))
        && ((same_optional_origin c c' && same_optional_origin o o') && same_selectors_origin d d')

    pub same_optional_origin : OptionalSelector Facts → OptionalSelector Facts → Bool
    same_optional_origin no_selector no_selector = true
    same_optional_origin (some_selector s) (some_selector t) = same_selector_origin s t
    same_optional_origin _ _ = false

    pub same_selectors_origin : Selectors Facts → Selectors Facts → Bool
    same_selectors_origin no_more no_more = true
    same_selectors_origin (more s ss) (more t ts) =
        same_selector_origin s t && same_selectors_origin ss ts
    same_selectors_origin _ _ = false

  -- `sameConditionOrigin` behind the test for nil.
  abbrev pub same_condition_origin : Condition Facts → Condition Facts → Bool
  same_condition_origin a b =
      (same_source a.source b.source && same_source_map a.field_sources b.field_sources)
      && (same_optional_origin a.visible b.visible
          && same_optional_origin a.not_visible b.not_visible)

  abbrev pub same_link_origin : FileLink Facts → FileLink Facts → Bool
  same_link_origin a b = same_source a.source b.source && str_eq a.resolved_path b.resolved_path

  unfoldable mutual
    unfolding same_source same_source_map same_optional_origin

    -- `sameCommandOrigin`
    pub same_command_origin : Command Facts → Command Facts → Bool
    same_command_origin (command f s e c a cs ls) (command f' s' e' c' a' cs' ls') =
        ((same_source s s' && same_optional_origin e e')
          && (same_option same_condition_origin c c' && same_argument_origin a a'))
        && (same_commands_origin cs cs' && same_list same_link_origin ls ls')

    -- `sameArgumentOrigin`: arguments that are no Config agree with any.
    pub same_argument_origin : Arguments Facts → Arguments Facts → Bool
    same_argument_origin (plain f) a = true
    same_argument_origin (config_value c) (config_value d) = same_config_origin c d
    same_argument_origin nil_config nil_config = true
    same_argument_origin (config_pointer c) (config_pointer d) = same_config_origin c d
    same_argument_origin _ _ = false

    -- `sameConfigOrigin`
    pub same_config_origin : Config Facts → Config Facts → Bool
    same_config_origin (config f s m on_start on_complete)
          (config f' s' m' on_start' on_complete') =
        (same_source s s' && same_source_map m m')
        && (same_commands_origin on_start on_start'
            && same_commands_origin on_complete on_complete')

    pub same_commands_origin : Commands Facts → Commands Facts → Bool
    same_commands_origin no_commands no_commands = true
    same_commands_origin (next_command c cs) (next_command d ds) =
        same_command_origin c d && same_commands_origin cs ds
    same_commands_origin _ _ = false

-- `sameCommandSnapshot`
unfoldable pub same_command_snapshot :
    {Facts : Type 0} → (Facts → Facts → Bool) → Command Facts → Command Facts → Bool
unfolding equivalent same_command_origin
same_command_snapshot deep_equal c d = equivalent deep_equal c d && same_command_origin c d
