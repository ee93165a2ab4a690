-- ===== src/Token/Keywords.antt =====
-- The keyword table of token/token.cpp.
use dtime_db.Prelude.{◌≡◌, ◌≢◌, refl, true, [], ◌∷◌, arith, All, ==_iff}
use dtime_db.Token.{Text, TokenType, token_identifier, same_text, keywords, look_up}

pub same_text_sound : (s t : Text) → same_text s t ≡ true → s ≡ t
same_text_sound [] [] h = refl
same_text_sound [] (b ∷ t) h = cc
same_text_sound (a ∷ s) [] h = cc
same_text_sound (a ∷ s) (b ∷ t) h = ground (arith, same_text_sound s t)

pub same_text_refl : (s : Text) → same_text s s ≡ true
same_text_refl [] = refl
same_text_refl (a ∷ s) = rw ((==_iff a a).1 refl, same_text_refl s)

-- Every keyword is found under its own type: no earlier entry hides it, and none is an identifier.
abbrev pub IsFound : Text × TokenType → Type 0
IsFound e = (look_up e.0 ≡ e.1) × (e.1 ≢ token_identifier)

pub keywords-IsFound : All IsFound keywords
unfolding look_up
keywords-IsFound = (
  (refl, λ e. cc),
  (
    (refl, λ e. cc),
    (
      (refl, λ e. cc),
      (
        (refl, λ e. cc),
        (
          (refl, λ e. cc),
          (
            (refl, λ e. cc),
            (
              (refl, λ e. cc),
              (
                (refl, λ e. cc),
                (
                  (refl, λ e. cc),
                  (
                    (refl, λ e. cc),
                    (
                      (refl, λ e. cc),
                      (
                        (refl, λ e. cc),
                        (
                          (refl, λ e. cc),
                          (
                            (refl, λ e. cc),
                            (
                              (refl, λ e. cc),
                              (
                                (refl, λ e. cc),
                                (
                                  (refl, λ e. cc),
                                  (
                                    (refl, λ e. cc),
                                    (
                                      (refl, λ e. cc),
                                      (
                                        (refl, λ e. cc),
                                        (
                                          (refl, λ e. cc),
                                          (
                                            (refl, λ e. cc),
                                            (
                                              (refl, λ e. cc),
                                              (
                                                (refl, λ e. cc),
                                                (
                                                  (refl, λ e. cc),
                                                  (
                                                    (refl, λ e. cc),
                                                    (
                                                      (refl, λ e. cc),
                                                      (
                                                        (refl, λ e. cc),
                                                        (
                                                          (refl, λ e. cc),
                                                          (
                                                            (refl, λ e. cc),
                                                            (
                                                            (refl, λ e. cc),
                                                            ((refl, λ e. cc), tt),
                                                            ),
                                                          ),
                                                        ),
                                                      ),
                                                    ),
                                                  ),
                                                ),
                                              ),
                                            ),
                                          ),
                                        ),
                                      ),
                                    ),
                                  ),
                                ),
                              ),
                            ),
                          ),
                        ),
                      ),
                    ),
                  ),
                ),
              ),
            ),
          ),
        ),
      ),
    ),
  ),
)
