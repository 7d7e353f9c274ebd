-- ===== src/Record/Tests.antt =====
-- Runs of record/, and its theorems at them.
use mnemosia.Prelude.{ℕ, ◌≡◌, refl, List, [], ◌∷◌, Option, some, concat}
use mnemosia.Record.Message.{Message}
use mnemosia.Record.Sample.{message}
use mnemosia.Record.Chunk.{
  split_messages, put_messages, put_message, close_group, groups_of, is_empty, target_or_default,
}
use mnemosia.Record.Chunk.Split.{AreGroups, split_messages_lem}

abbrev run : List Message
run = message "a" ∷ message "b" ∷ message "c" ∷ []

-- Every message takes 40 bytes.
abbrev forty : Message → Option ℕ
forty m = some 40

two_and_one :
    split_messages forty run 100 ≡ some ((message "a" ∷ message "b" ∷ []) ∷ (message "c" ∷ []) ∷ [])
unfolding split_messages put_messages put_message close_group groups_of is_empty target_or_default
two_and_one = refl

split_messages_lem_example :
    (groups : List (List Message)) × (split_messages forty run 100 ≡ some groups)
    × (concat groups ≡ run)
    × AreGroups forty (target_or_default 100) groups
split_messages_lem_example =
    split_messages_lem forty run 100 ((40, refl), ((40, refl), ((40, refl), tt)))
