-- ===== src/Github/Tests.antt =====
-- A dispatch to GitHub at a concrete order.
use slack_runtests.Prelude.{codes, none, some}
use slack_runtests.Github.{Order}
use slack_runtests.Notifier.{SlackNotifier}

abbrev order : Order
order = record {
  repo = codes "acme/tests";
  workflow = codes "run.yml";
  ref = codes "main";
  token = codes "t";
  correlation_id = codes "abc";
  product = codes "webapp";
  server = codes "dev";
  select = none;
  marker = some (codes "slow");
  slack_channel = codes "C1";
  slack_user = codes "U1";
}

abbrev slack : SlackNotifier
slack = record {
  channel = codes "C1";
  token = some (codes "xoxb");
  ts = none;
  last_edit = 0;
  started = 5;
}
