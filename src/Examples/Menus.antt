-- ===== src/Examples/Menus.antt =====
-- The theorems on menu lines, at a few lines.
use nextexpress.Prelude.{
  ◌^◌, ◌≡◌, refl, min, false, true, leb, u32_max, ◌++◌, codes, ◌∷◌, if◌then◌else◌,
}
use nextexpress.Prelude.Int.{pos, sub_ℕ}
use nextexpress.Time.{i64_max}
use nextexpress.Menu.{parse_menu_command}
use nextexpress.Menu.Line.{is_digit, to_upper}
use nextexpress.Menu.Number.{val_prefix}
use nextexpress.Menu.Number.Values.{value, signed, val_prefix_lem}
use nextexpress.Menu.Command.{
  JoinArg, MsgBaseArg, NumberArg, FileListArg, FileSpan, join, read, join_msg_base, file_list,
}
use nextexpress.Menu.Case.{upper_command, parse_menu_command-to_upper}
use nextexpress.Menu.Numeric.{clamped}
use nextexpress.Menu.Numeric.Commands.{parse_menu_command-numerals}

parse_menu_command-to_upper_example :
    parse_menu_command (to_upper (codes " z Lotus 3 "))
    ≡ upper_command (parse_menu_command (codes " z Lotus 3 "))
parse_menu_command-to_upper_example = parse_menu_command-to_upper (codes " z Lotus 3 ")

parse_menu_command-numerals_example :
    (parse_menu_command (codes "J " ++ codes "12")
      ≡ join (JoinArg.conference (clamped (codes "12"))))
    × (parse_menu_command (codes "J " ++ (codes "12" ++ b' ' ∷ codes "3"))
        ≡ join (JoinArg.with_msg_base (clamped (codes "12")) (clamped (codes "3"))))
    × (parse_menu_command (codes "J " ++ (codes "12" ++ b'.' ∷ codes "3"))
        ≡ join (JoinArg.with_msg_base (clamped (codes "12")) (clamped (codes "3"))))
    × (parse_menu_command (codes "JM " ++ codes "12")
        ≡ join_msg_base (MsgBaseArg.base (clamped (codes "12"))))
    × (parse_menu_command (codes "JM " ++ (codes "12" ++ b'.' ∷ codes "3"))
        ≡ join (JoinArg.with_msg_base (clamped (codes "12")) (clamped (codes "3"))))
    × (parse_menu_command (codes "R " ++ codes "12")
        ≡ read (
            if leb (value (codes "12")) u32_max
            then NumberArg.number (value (codes "12"))
            else NumberArg.invalid))
    × (parse_menu_command (codes "F " ++ codes "12")
        ≡ file_list
            (FileListArg.span (FileSpan.dir (clamped (codes "12"))) false false false false))
    × (parse_menu_command (codes "FR " ++ codes "12")
        ≡ file_list (FileListArg.span (FileSpan.dir (clamped (codes "12"))) false true false true))
unfolding is_digit
parse_menu_command-numerals_example = parse_menu_command-numerals (codes "12") (codes "3") refl refl

val_prefix_lem_example : val_prefix (signed false (codes "42" ++ codes "-3")) ≡ (
    if false
    then sub_ℕ 0 (min (value (codes "42")) (2 ^ 63))
    else pos (min (value (codes "42")) i64_max))
unfolding is_digit
val_prefix_lem_example = val_prefix_lem false (codes "42") (codes "-3") refl refl refl
