-- ===== src/Strings/Tests.antt =====
-- Runs of the helpers, those of test/StringHelperTest/StringHelperTest.cpp among them, and their
-- theorems at small texts.
use simple_tcp.Prelude.{◌≡◌, refl, [], ◌∷◌, some}
use simple_tcp.Strings.{text, strip_loop, strip, split_loop, split}
use simple_tcp.Strings.Strip.{strip_lem}
use simple_tcp.Strings.Split.{no_words, more_words, split_lem}

last_word_is_lost :
    split [] (text " Test Test Test") (text " ") ≡ some (text "Test" ∷ text "Test" ∷ [])
unfolding split split_loop
last_word_is_lost = refl

not_split : split [] (text "Test Test") (text ",") ≡ some (text "Test Test" ∷ [])
unfolding split
not_split = refl

only_spaces : strip (text "   ") ≡ some []
unfolding strip strip_loop
only_spaces = refl

strip_lem_example : strip (text " Test ") ≡ some (text "Test")
strip_lem_example = strip_lem (text " Test ")

split_lem_example :
    (split [] (text "gzip, deflate, br") (text ",") ≡ some (text "gzip" ∷ text " deflate" ∷ []))
    × (split [] (text " br") (text ",") ≡ some (text " br" ∷ []))
split_lem_example =
    split_lem [] b',' (text "gzip") (text " deflate" ∷ []) (text " br")
      (more_words refl (more_words refl no_words)) refl
