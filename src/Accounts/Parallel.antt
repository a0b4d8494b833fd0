-- ===== src/Accounts/Parallel.antt =====
-- Logins that run at once (backend/src/domain/services/auth.service.ts, `login`): each reads the account
-- and its lock before the others have written, since nothing holds the row while a hash is compared.
use werefa.Accounts.Lockout.{Attempt}
use werefa.Accounts.Login.{login_as, is_locked}
use werefa.Accounts.{Directory, User, AuthEnv}
use werefa.Prelude.{Bool, not, ◌&&◌, some, List, [], ◌∷◌}

-- The rest of each login, on the row that all of them read.
unfoldable pub finish_all : AuthEnv → User → Directory → List Attempt → Directory
finish_all env u d [] = d
finish_all env u d (a ∷ rest) =
    finish_all env u (login_as env d a.at a.token a.input (some u)).0 rest

-- The row was not locked and the password is wrong.
abbrev pub guesses_at : AuthEnv → User → Attempt → Bool
guesses_at env u a =
    not (is_locked u.is_locked_until a.at) && not (env.verify u.password_hash a.input.password)
