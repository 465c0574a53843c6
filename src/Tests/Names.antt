-- ===== src/Tests/Names.antt =====
-- Random credentials at concrete input.
use dbaas_controller.Prelude.{◌≡◌, arith}
use dbaas_controller.Go.{panic}
use dbaas_controller.Database.Credentials.{
  Bytes, Draws, run_of, create_user_info, create_mongodb_user_info,
}
use dbaas_controller.Database.Lengths.{
  InRange, HasLengths, create_user_info-HasLengths, create_mongodb_user_info-panic,
}

abbrev draws : Draws
draws i = 7

draws-InRange : InRange draws
draws-InRange i = omega arith

-- A namespace of 63 bytes, as long as Kubernetes allows
abbrev long_namespace : Bytes
long_namespace = run_of 40 63

create_user_info-HasLengths_example : HasLengths (create_user_info draws 0 long_namespace)
create_user_info-HasLengths_example =
    create_user_info-HasLengths draws draws-InRange 0 long_namespace

create_mongodb_user_info-panic_example : create_mongodb_user_info draws 0 long_namespace ≡ panic
create_mongodb_user_info-panic_example =
    create_mongodb_user_info-panic draws draws-InRange 0 long_namespace (omega arith)
