-- ===== src/Tests/Tidied.antt =====
-- The temporary files of a client's run.
use epoxy.Base.{Str, ascii, ◌==◌, ◌≡◌, refl, true, false, [], ◌∷◌}
use epoxy.Base.Dict.{lookup}
use epoxy.Nextboot.Files.{exists, HasFileMaps}
use epoxy.Nextboot.Load.Files.{DecodesFileMaps}
use epoxy.Nextboot.Run.{run}
use epoxy.Nextboot.Run.Files.{CommandsSpare, run_leaves_no_files}
use epoxy.Tests.Client.{machine, client, decode_text}

decoded-HasFileMaps : (body : Str) → HasFileMaps (decode_text body).v1
unfolding lookup
decoded-HasFileMaps [] = (refl, tt)
decoded-HasFileMaps (b ∷ body) = (refl, tt)

machine-DecodesFileMaps : DecodesFileMaps machine
machine-DecodesFileMaps body n e =
    let same : decode_text body ≡ n = cc e in rw (← same) (decoded-HasFileMaps body)

machine-CommandsSpare : CommandsSpare (ascii "/tmp/1") machine
machine-CommandsSpare args env files w absent = absent

client-HasFileMaps : HasFileMaps client.config.v1
unfolding lookup
client-HasFileMaps = (refl, tt)

run_leaves_no_files_example :
    exists (ascii "/tmp/1") (run machine 3 (ascii "epoxy.stage3") true false client).1.files ≡ false
unfolding ascii ◌==◌
run_leaves_no_files_example =
    run_leaves_no_files machine (ascii "/tmp/1") 3 (ascii "epoxy.stage3") true false client
      machine-DecodesFileMaps machine-CommandsSpare client-HasFileMaps refl
