-- ===== src/Safepath/Tests.antt =====
-- Paths that safepath_test.go accepts and refuses.
use idunn.Prelude.{codes, ok, err, ◌≡◌, refl, split, [], ◌∷◌, ◌++◌}
use idunn.Safepath.Walk.{walk}
use idunn.Safepath.Plain.{IsPlain, clean-IsPlain, clean-walk}
use idunn.Safepath.{clean, escapes, reserved_name, bad_ending}

clean_dots : clean (codes "./a//b/../c") ≡ ok (codes "a/c")
unfolding clean
clean_dots = refl

refuse_above : clean (codes "a/../../b") ≡ err escapes
unfolding clean
refuse_above = refl

refuse_device : clean (codes "bin/com1.txt") ≡ err reserved_name
unfolding clean
refuse_device = refl

refuse_ending : clean (codes "bin/evil.exe ") ≡ err bad_ending
unfolding clean
refuse_ending = refl

clean-IsPlain_example : IsPlain (codes "a/c")
clean-IsPlain_example = clean-IsPlain (codes "./a//b/../c") (codes "a/c") clean_dots

clean-walk_example :
    walk (codes "opt" ∷ []) (split (codes "./a//b/../c") b'/')
    ≡ (codes "opt" ∷ []) ++ split (codes "a/c") b'/'
clean-walk_example = clean-walk (codes "opt" ∷ []) (codes "./a//b/../c") (codes "a/c") clean_dots
