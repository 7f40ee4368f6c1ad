-- ===== src/Examples/Combined.antt =====
-- A combined job whose post-processing finds no counts.
use oqtopus_engine.Jobs.Manual.{post_process}
use oqtopus_engine.Jobs.Manual.Conclusion.{IsConcluded, post_process-IsConcluded}
use oqtopus_engine.Examples.Samples.{manual_services, combined}

post_process-IsConcluded_example : IsConcluded (post_process manual_services combined)
post_process-IsConcluded_example = post_process-IsConcluded manual_services combined
