-- ===== src/Tests/Entries.antt =====
-- The entries of the vector table at the numbers of their exceptions.
use martos.Common.{◌≡◌, refl, some, none}
use martos.Vectors.{vector_table, entry, pendsv, systick, tim2_irq}

-- PendSV is exception 14, SysTick is 15.
pendsv_entry : entry 14 vector_table ≡ some pendsv
unfolding entry vector_table
pendsv_entry = refl

systick_entry : entry 15 vector_table ≡ some systick
unfolding entry vector_table
systick_entry = refl

-- TIM2 is interrupt 28.
tim2_irq_entry : entry 44 vector_table ≡ some tim2_irq
unfolding entry vector_table
tim2_irq_entry = refl

end_entry : entry 45 vector_table ≡ none
unfolding entry vector_table
end_entry = refl
