-- ===== src/Engine/Commands/Same.antt =====
-- A command is the same snapshot as itself: sameCommandSnapshot of internal/engine/result_ledger.go.
use flowbaton.Prelude.{◌≡◌, refl, Bool, true}
use flowbaton.Engine.Results.{same_map}
use flowbaton.Engine.Results.Same.{
  both, IsKeyed, str_eq_refl, same_int_refl, same_option_refl, same_map_refl,
}
use flowbaton.Engine.Commands.{
  Position, SourceInfo, FieldSources, ElementSelector, selector, OptionalSelector, no_selector,
  some_selector, Selectors, no_more, more, Condition, FileLink, Command, command, Arguments, plain,
  config_value, nil_config, config_pointer, Config, config, Commands, no_commands, next_command,
}
use flowbaton.Engine.Commands.Origin.{
  same_position, same_source, same_source_map, same_selector_origin, same_optional_origin,
  same_selectors_origin, same_condition_origin, same_link_origin, same_command_origin,
  same_argument_origin, same_config_origin, same_commands_origin, same_command_snapshot,
}
use flowbaton.Engine.Commands.Plain.{
  KeyedSources, same_list_refl, Plain, PlainSelector, PlainOptional, PlainSelectors, PlainCondition,
  PlainCommand, PlainArguments, PlainConfig, PlainCommands, equivalent_refl,
}

same_position_refl : (p : Position) → same_position p p ≡ true
same_position_refl p =
    both _ _ (both _ _ (same_int_refl p.line) (same_int_refl p.column)) (same_int_refl p.offset)

same_source_refl : (s : SourceInfo) → same_source s s ≡ true
unfolding same_source
same_source_refl s =
    both _ _ (str_eq_refl s.path) (both _ _ (same_position_refl s.start) (same_position_refl s.end))

same_source_map_refl : (m : FieldSources) → KeyedSources m → same_source_map m m ≡ true
unfolding same_source_map
same_source_map_refl m h =
    same_option_refl IsKeyed (same_map same_source) (same_map_refl same_source same_source_refl) m h

module _ {Facts : Type 0} (deep_equal : Facts → Facts → Bool) where
  mutual
    unfolding PlainSelector same_selector_origin

    same_selector_origin_refl :
        (s : ElementSelector Facts) → PlainSelector deep_equal s → same_selector_origin s s ≡ true
    same_selector_origin_refl (selector f s m b a l r c o d) h =
        both _ _
          (both _ _ (both _ _ (same_source_refl s) (same_source_map_refl m h.0.1)) (
            both _ _
              (both _ _ (same_optional_origin_refl b h.1.0) (same_optional_origin_refl a h.1.1))
              (both _ _ (same_optional_origin_refl l h.1.2) (same_optional_origin_refl r h.2.0))))
          (both _ _
            (both _ _ (same_optional_origin_refl c h.2.1) (same_optional_origin_refl o h.2.2))
            (same_selectors_origin_refl d h.3))

    same_optional_origin_refl :
        (s : OptionalSelector Facts) → PlainOptional deep_equal s → same_optional_origin s s ≡ true
    same_optional_origin_refl no_selector h = refl
    same_optional_origin_refl (some_selector s) h = same_selector_origin_refl s h

    same_selectors_origin_refl :
        (ss : Selectors Facts) → PlainSelectors deep_equal ss → same_selectors_origin ss ss ≡ true
    same_selectors_origin_refl no_more h = refl
    same_selectors_origin_refl (more s ss) h =
        both _ _ (same_selector_origin_refl s h.0) (same_selectors_origin_refl ss h.1)

  same_condition_origin_refl :
      (c : Condition Facts) → PlainCondition deep_equal c → same_condition_origin c c ≡ true
  same_condition_origin_refl c h =
      both _ _ (both _ _ (same_source_refl c.source) (same_source_map_refl c.field_sources h.0.1)) (
        both _ _ (same_optional_origin_refl c.visible h.1.0)
          (same_optional_origin_refl c.not_visible h.1.1))

  same_link_origin_refl :
      (l : FileLink Facts) → Plain deep_equal l.facts → same_link_origin l l ≡ true
  same_link_origin_refl l h = both _ _ (same_source_refl l.source) (str_eq_refl l.resolved_path)

  mutual
    unfolding PlainCommand same_command_origin

    pub same_command_origin_refl :
        (c : Command Facts) → PlainCommand deep_equal c → same_command_origin c c ≡ true
    same_command_origin_refl (command f s e c a cs ls) h =
        both _ _
          (both _ _ (both _ _ (same_source_refl s) (same_optional_origin_refl e h.0.1)) (
            both _ _
              (same_option_refl (PlainCondition deep_equal) same_condition_origin
                same_condition_origin_refl c h.0.2)
              (same_argument_origin_refl a h.1.0)))
          (both _ _ (same_commands_origin_refl cs h.1.1) (
            same_list_refl (λ (l : FileLink Facts). Plain deep_equal l.facts) same_link_origin
              same_link_origin_refl ls h.1.2))

    same_argument_origin_refl :
        (a : Arguments Facts) → PlainArguments deep_equal a → same_argument_origin a a ≡ true
    same_argument_origin_refl (plain f) h = refl
    same_argument_origin_refl (config_value c) h = same_config_origin_refl c h
    same_argument_origin_refl nil_config h = refl
    same_argument_origin_refl (config_pointer c) h = same_config_origin_refl c h

    same_config_origin_refl :
        (c : Config Facts) → PlainConfig deep_equal c → same_config_origin c c ≡ true
    same_config_origin_refl (config f s m on_start on_complete) h =
        both _ _ (both _ _ (same_source_refl s) (same_source_map_refl m h.0.1)) (
          both _ _ (same_commands_origin_refl on_start h.1.0)
            (same_commands_origin_refl on_complete h.1.1))

    same_commands_origin_refl :
        (cs : Commands Facts) → PlainCommands deep_equal cs → same_commands_origin cs cs ≡ true
    same_commands_origin_refl no_commands h = refl
    same_commands_origin_refl (next_command c cs) h =
        both _ _ (same_command_origin_refl c h.0) (same_commands_origin_refl cs h.1)

  -- A command whose facts are deeply equal to themselves is the same snapshot as itself.
  pub same_command_snapshot_refl :
      (c : Command Facts) → PlainCommand deep_equal c → same_command_snapshot deep_equal c c ≡ true
  unfolding same_command_snapshot
  same_command_snapshot_refl c h =
      both _ _ (equivalent_refl deep_equal c h) (same_command_origin_refl c h)
