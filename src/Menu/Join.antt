-- ===== src/Menu/Join.antt =====
-- rust/src/app/menu_command/join.rs
use nextexpress.Prelude.{option_map, Option, none, some, List, [], ◌∷◌, codes, ◌==◌}
use nextexpress.Text.{Text}
use nextexpress.Menu.Line.{split_once}
use nextexpress.Menu.Number.{val_prefix}
use nextexpress.Menu.Command.{
  JoinArg, MsgBaseArg, MenuCommand, join, join_msg_base, command_tokens, conference, with_msg_base,
}

-- `first.find('.')` and the text after the dot.
abbrev pub after_dot : Text → Option Text
after_dot first = (split_once (λ c. c == b'.') first).1

abbrev pub join_rest : Text → Option Text → List Text → JoinArg
join_rest first (some base) rest = with_msg_base (val_prefix first) (val_prefix base)
join_rest first none (second ∷ rest) = with_msg_base (val_prefix first) (val_prefix second)
join_rest first none [] = conference (val_prefix first)

unfoldable pub parse_join_params : Text → List Text → JoinArg
parse_join_params first rest = join_rest first (after_dot first) rest

abbrev pub join_tokens : List Text → JoinArg
join_tokens [] = JoinArg.missing
join_tokens (first ∷ rest) = parse_join_params first rest

unfoldable pub parse_join_command : Text → Option JoinArg
parse_join_command line = option_map join_tokens (command_tokens line (codes "J"))

abbrev pub msgbase_first : Text → Option Text → List Text → MenuCommand
msgbase_first first (some base) rest = join (parse_join_params first rest)
msgbase_first first none rest = join_msg_base (MsgBaseArg.base (val_prefix first))

abbrev pub msgbase_tokens : List Text → MenuCommand
msgbase_tokens [] = join_msg_base MsgBaseArg.missing
msgbase_tokens (first ∷ rest) = msgbase_first first (after_dot first) rest

unfoldable pub parse_join_msgbase_command : Text → Option MenuCommand
parse_join_msgbase_command line = option_map msgbase_tokens (command_tokens line (codes "JM"))
