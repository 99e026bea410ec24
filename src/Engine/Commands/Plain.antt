-- ===== src/Engine/Commands/Plain.antt =====
-- Commands that are equivalent to themselves: Equivalent of internal/model/model.go.
use flowbaton.Prelude.{◌≡◌, refl, All, List, [], ◌∷◌, Bool, true}
use flowbaton.Engine.Results.{same_list}
use flowbaton.Engine.Results.Same.{both, IsKeyed, OfOption, same_option_refl}
use flowbaton.Engine.Commands.{
  FieldSources, ElementSelector, selector, OptionalSelector, no_selector, some_selector, Selectors,
  no_more, more, Condition, FileLink, Command, command, Arguments, plain, config_value, nil_config,
  config_pointer, Config, config, Commands, no_commands, next_command, equivalent_selector,
  equivalent_optional, equivalent_selectors, equivalent_condition, equivalent_link, equivalent,
  equivalent_arguments, equivalent_config, equivalent_commands,
}

abbrev pub KeyedSources : FieldSources → Type 0
KeyedSources = OfOption IsKeyed

pub same_list_refl :
    {A : Type 0} (P : A → Type 0) (same : A → A → Bool)
    → ((a : A) → P a → same a a ≡ true)
    → (xs : List A) → All P xs
    → same_list same xs xs ≡ true
same_list_refl P same h [] p = refl
same_list_refl P same h (x ∷ xs) p = both _ _ (h x p.0) (same_list_refl P same h xs p.1)

module _ {Facts : Type 0} (deep_equal : Facts → Facts → Bool) where
  abbrev pub Plain : Facts → Type 0
  Plain f = deep_equal f f ≡ true

  -- The facts of every node are deeply equal to themselves, and its map of sources has every key
  -- once.
  unfoldable mutual
    pub PlainSelector : ElementSelector Facts → Type 0
    PlainSelector (selector f s m b a l r c o d) =
        (Plain f × KeyedSources m)
        × (PlainOptional b × PlainOptional a × PlainOptional l)
        × (PlainOptional r × PlainOptional c × PlainOptional o)
        × PlainSelectors d

    pub PlainOptional : OptionalSelector Facts → Type 0
    PlainOptional no_selector = Unit {0}
    PlainOptional (some_selector s) = PlainSelector s

    pub PlainSelectors : Selectors Facts → Type 0
    PlainSelectors no_more = Unit {0}
    PlainSelectors (more s ss) = PlainSelector s × PlainSelectors ss

  abbrev pub PlainCondition : Condition Facts → Type 0
  PlainCondition c =
      (Plain c.facts × KeyedSources c.field_sources)
      × (PlainOptional c.visible × PlainOptional c.not_visible)

  unfoldable mutual
    pub PlainCommand : Command Facts → Type 0
    PlainCommand (command f s e c a cs ls) =
        (Plain f × PlainOptional e × OfOption PlainCondition c)
        × (PlainArguments a × PlainCommands cs × All (λ (l : FileLink Facts). Plain l.facts) ls)

    pub PlainArguments : Arguments Facts → Type 0
    PlainArguments (plain f) = Plain f
    PlainArguments (config_value c) = PlainConfig c
    PlainArguments nil_config = Unit {0}
    PlainArguments (config_pointer c) = PlainConfig c

    pub PlainConfig : Config Facts → Type 0
    PlainConfig (config f s m on_start on_complete) =
        (Plain f × KeyedSources m) × (PlainCommands on_start × PlainCommands on_complete)

    pub PlainCommands : Commands Facts → Type 0
    PlainCommands no_commands = Unit {0}
    PlainCommands (next_command c cs) = PlainCommand c × PlainCommands cs

  mutual
    unfolding PlainSelector equivalent_selector

    equivalent_selector_refl :
        (s : ElementSelector Facts) → PlainSelector s → equivalent_selector deep_equal s s ≡ true
    equivalent_selector_refl (selector f s m b a l r c o d) h =
        both _ _
          (both _ _ (both _ _ h.0.0 (equivalent_optional_refl b h.1.0))
            (both _ _ (equivalent_optional_refl a h.1.1) (equivalent_optional_refl l h.1.2)))
          (both _ _ (both _ _ (equivalent_optional_refl r h.2.0) (equivalent_optional_refl c h.2.1))
            (both _ _ (equivalent_optional_refl o h.2.2) (equivalent_selectors_refl d h.3)))

    equivalent_optional_refl :
        (s : OptionalSelector Facts) → PlainOptional s → equivalent_optional deep_equal s s ≡ true
    equivalent_optional_refl no_selector h = refl
    equivalent_optional_refl (some_selector s) h = equivalent_selector_refl s h

    equivalent_selectors_refl :
        (ss : Selectors Facts) → PlainSelectors ss → equivalent_selectors deep_equal ss ss ≡ true
    equivalent_selectors_refl no_more h = refl
    equivalent_selectors_refl (more s ss) h =
        both _ _ (equivalent_selector_refl s h.0) (equivalent_selectors_refl ss h.1)

  equivalent_condition_refl :
      (c : Condition Facts) → PlainCondition c → equivalent_condition deep_equal c c ≡ true
  equivalent_condition_refl c h = both _ _ h.0.0 (
      both _ _ (equivalent_optional_refl c.visible h.1.0)
        (equivalent_optional_refl c.not_visible h.1.1))

  mutual
    unfolding PlainCommand equivalent

    pub equivalent_refl : (c : Command Facts) → PlainCommand c → equivalent deep_equal c c ≡ true
    equivalent_refl (command f s e c a cs ls) h =
        both _ _
          (both _ _ (both _ _ h.0.0 (equivalent_optional_refl e h.0.1)) (
            both _ _
              (same_option_refl PlainCondition (equivalent_condition deep_equal)
                equivalent_condition_refl c h.0.2)
              (equivalent_arguments_refl a h.1.0)))
          (both _ _ (equivalent_commands_refl cs h.1.1) (
            same_list_refl (λ (l : FileLink Facts). Plain l.facts) (equivalent_link deep_equal)
              (λ l p. p) ls h.1.2))

    equivalent_arguments_refl :
        (a : Arguments Facts) → PlainArguments a → equivalent_arguments deep_equal a a ≡ true
    equivalent_arguments_refl (plain f) h = h
    equivalent_arguments_refl (config_value c) h = equivalent_config_refl c h
    equivalent_arguments_refl nil_config h = refl
    equivalent_arguments_refl (config_pointer c) h = equivalent_config_refl c h

    equivalent_config_refl :
        (c : Config Facts) → PlainConfig c → equivalent_config deep_equal c c ≡ true
    equivalent_config_refl (config f s m on_start on_complete) h = both _ _ h.0.0 (
        both _ _ (equivalent_commands_refl on_start h.1.0)
          (equivalent_commands_refl on_complete h.1.1))

    equivalent_commands_refl :
        (cs : Commands Facts) → PlainCommands cs → equivalent_commands deep_equal cs cs ≡ true
    equivalent_commands_refl no_commands h = refl
    equivalent_commands_refl (next_command c cs) h =
        both _ _ (equivalent_refl c h.0) (equivalent_commands_refl cs h.1)
